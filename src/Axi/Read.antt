-- ===== src/Axi/Read.antt =====
-- `ad936x_axi_read`: hands the next block to user space, after an overrun check.
use zyndra.Base.{
  ℕ, ◌*◌, ◌/◌, ◌∷◌, Bool, ◌||◌, ltb, not, if◌then◌else◌, add32, sub32, add64, leb, leb_int,
}
use zyndra.Ring.{ringbuf_used}
use zyndra.Axi.State.{
  Priv, sync_for_cpu, Outcome, blocked, fail, ret, einval, enodev, efault, is_pos_int,
}

-- `struct ad936x_axi_rx_read`
pub record RxRead : Type 0 where
  pub rd : ℕ
  pub hw_wr : ℕ
  pub lost_bytes : ℕ

abbrev pub sizeof_rx_read : ℕ
sizeof_rx_read = 12

-- What a call takes from outside the driver: its `count`, the two reads of `rx_buf_wr`, the clock,
-- and whether `copy_to_user` succeeds.
pub record ReadCall : Type 0 where
  pub count : ℕ
  pub wr_overrun : ℕ
  pub wr_now : ℕ
  pub now : ℕ
  pub copied : Bool

-- Half a buffer behind the write pointer, rounded down to a block.
unfoldable pub snap : ℕ → ℕ → ℕ → ℕ
snap rx_block_size wr_ptr size = ringbuf_used (size / 2) wr_ptr size / rx_block_size * rx_block_size

-- The overrun branch: `resp.lost_bytes` and the new state.
unfoldable pub skip_overrun : ℕ → ℕ → Priv → ℕ × Priv
skip_overrun rx_block_size wr_ptr p =
    let new_rd = snap rx_block_size wr_ptr p.rxbuf_size in
    let lost = ringbuf_used p.rd_ptr new_rd p.rxbuf_size in
    (
      lost,
      record p {
        overrun_bytes = add64 p.overrun_bytes lost;
        rd_ptr = new_rd;
        blocks_ready = sub32 p.blocks_ready (lost / rx_block_size);
      },
    )

unfoldable pub check_overrun : ℕ → ℕ → Priv → ℕ × Priv
check_overrun rx_block_size wr_ptr p =
    if leb_int (p.rxbuf_size / rx_block_size) p.blocks_ready
    then skip_overrun rx_block_size wr_ptr p
    else (0, p)

-- `atomic_dec`, the statistics and the cache invalidation.
unfoldable pub take_block : ℕ → ReadCall → Priv → Priv
take_block rx_block_size c p =
    let delta = ringbuf_used p.prev_wr_ptr c.wr_now p.rxbuf_size in
    let used = ringbuf_used p.rd_ptr c.wr_now p.rxbuf_size in
    record p {
      blocks_ready = sub32 p.blocks_ready 1;
      total_bytes_written = add64 p.total_bytes_written delta;
      prev_wr_ptr = c.wr_now;
      buf_used_peak = if ltb p.buf_used_peak used then used else p.buf_used_peak;
      last_read_time = c.now;
      read_count = add64 p.read_count 1;
      effects = sync_for_cpu (add32 p.rxbuf_phys p.rd_ptr) rx_block_size ∷ p.effects;
    }

unfoldable pub advance_rd : ℕ → Priv → Priv
advance_rd rx_block_size p =
    let next = add32 p.rd_ptr rx_block_size in
    record p { rd_ptr = if leb p.rxbuf_size next then 0 else next }

-- From the overrun check to the end.
unfoldable pub deliver : ℕ → ReadCall → Priv → Outcome RxRead × Priv
deliver rx_block_size c p =
    let (lost, p₁) = check_overrun rx_block_size c.wr_overrun p in
    let p₂ = take_block rx_block_size c p₁ in
    if c.copied
    then (
      ret (record { rd = p₂.rd_ptr; hw_wr = c.wr_now; lost_bytes = lost }),
      advance_rd rx_block_size p₂,
    )
    else (fail efault, p₂)

unfoldable pub read : ℕ → ReadCall → Priv → Outcome RxRead × Priv
read rx_block_size c p =
    if ltb c.count sizeof_rx_read
    then (fail einval, p)
    else if not (is_pos_int p.blocks_ready || p.closing)
    then (blocked, p)
    else if p.closing
    then (fail enodev, p)
    else deliver rx_block_size c p
