-- ===== src/Axi/Write.antt =====
-- `ad936x_axi_write`: publishes a new TX write pointer when the ring has room, after the cache lines
-- of the new data are flushed.
use zyndra.Base.{ℕ, ◌-◌, ◌∷◌, List, [], Bool, ◌||◌, ltb, leb, not, if◌then◌else◌, add32, sub32, min}
use zyndra.Ring.{ringbuf_used}
use zyndra.Axi.State.{
  Priv, Effect, writel, tx_buf_wr, sync_for_device, Outcome, blocked, fail, ret, einval, enodev,
  efault,
}

abbrev pub sizeof_tx_write : ℕ
sizeof_tx_write = 4

-- `count`, whether `copy_from_user` succeeds, the `wr` of the request, and the value that the wait
-- condition reads from `tx_buf_rd`.
pub record WriteCall : Type 0 where
  pub count : ℕ
  pub copied : Bool
  pub wr : ℕ
  pub tx_rd : ℕ

-- `used <= priv->txbuf_size - rx_block_size`
unfoldable pub has_room : ℕ → ℕ → ℕ → ℕ → Bool
has_room rx_block_size wr rd size = leb (ringbuf_used rd wr size) (sub32 size rx_block_size)

-- The two `dma_sync_single_for_device` calls, the later first, as offsets from the buffer's base.
unfoldable pub flush_ranges : ℕ → ℕ → ℕ → List (ℕ × ℕ)
flush_ranges size old_wr wr =
    let flush_len = ringbuf_used old_wr wr size in
    let chunk = min flush_len (sub32 size old_wr) in
    if ltb 0 flush_len
    then (if ltb chunk flush_len
        then (0, flush_len - chunk) ∷ (old_wr, chunk) ∷ []
        else (old_wr, chunk) ∷ [])
    else []

unfoldable pub flush : ℕ → List (ℕ × ℕ) → List Effect → List Effect
flush phys [] es = es
flush phys ((off, len) ∷ rs) es = sync_for_device (add32 phys off) len ∷ flush phys rs es

unfoldable pub publish : ℕ → Priv → Priv
publish wr p = record p {
  tx_wr_ptr = wr;
  effects =
      writel tx_buf_wr wr ∷ flush p.txbuf_phys (flush_ranges p.txbuf_size p.tx_wr_ptr wr) p.effects;
}

unfoldable pub write : ℕ → WriteCall → Priv → Outcome ℕ × Priv
write rx_block_size c p =
    if ltb c.count sizeof_tx_write
    then (fail einval, p)
    else if not c.copied
    then (fail efault, p)
    else if leb p.txbuf_size c.wr
    then (fail einval, p)
    else if not (has_room rx_block_size c.wr c.tx_rd p.txbuf_size || p.closing)
    then (blocked, p)
    else if p.closing
    then (fail enodev, p)
    else (ret sizeof_tx_write, publish c.wr p)
