-- ===== src/Axi/Rx/Overrun.antt =====
-- The overrun check of a `read`: after it the reader is half a ring behind the FPGA.
use native.Mathlib.Nat.{mod-add-mod, mod-lt, mul-div_left, div-lt_iff_lt-mul}
use zyndra.Base.{
  ℕ, ◌+◌, ◌-◌, ◌*◌, ◌/◌, ◌%◌, ◌^◌, ◌<◌, ◌≡◌, sym, ◌∙◌, arith, leb, if◌then◌else◌, dec_le,
}
use zyndra.Ring.{ringbuf_used}
use zyndra.Ring.Distance.{ringbuf_used-lt, add-ringbuf_used}
use zyndra.Ring.Blocks.{ringbuf_used-mul}
use zyndra.Axi.State.{Priv}
use zyndra.Axi.Read.{snap, skip_overrun, check_overrun}
use zyndra.Axi.Rx.Inv.{RxInv}

-- The block to which an overrun snaps, in a ring of `n` blocks of `b` bytes.
abbrev pub snap_block : ℕ → ℕ → ℕ → ℕ
snap_block b n w = ringbuf_used (n * b / 2) w (n * b) / b

-- How many blocks a `read` skips: none unless the reader is a whole ring behind.
abbrev pub skipped : ℕ → ℕ → ℕ → ℕ → ℕ → ℕ
skipped b n r t w = if leb n (t - r) then ringbuf_used (r % n) (snap_block b n w) n else 0

module _ {b n r t : ℕ} {p : Priv} (inv : RxInv b n r t p) where
  open inv use {block_pos, ring_pos, fits, size, read_at, timer_at, order, ready, counted}

  blocks_small : n < 2 ^ 31
  blocks_small = grind arith

  max_blocks : p.rxbuf_size / b ≡ n
  max_blocks = rw size (mul-div_left n block_pos)

  module _ (w : ℕ) (w_in : w < n * b) where
    snap_block-lt : snap_block b n w < n
    snap_block-lt =
        (div-lt_iff_lt-mul block_pos).1
          (ringbuf_used-lt (n * b / 2) w (n * b) (omega arith) w_in (omega arith))

    pub jump-lt : ringbuf_used (r % n) (snap_block b n w) n < n
    jump-lt =
        ringbuf_used-lt (r % n) (snap_block b n w) n (mod-lt r ring_pos) snap_block-lt
          (omega (arith, blocks_small))

    lost_lem :
        ringbuf_used p.rd_ptr (snap b w p.rxbuf_size) p.rxbuf_size
        ≡ ringbuf_used (r % n) (snap_block b n w) n * b
    unfolding snap
    lost_lem =
        rw (read_at, size)
          (ringbuf_used-mul b n block_pos ring_pos (r % n) (snap_block b n w) (mod-lt r ring_pos)
            snap_block-lt (omega arith))

    pub landed : (r + ringbuf_used (r % n) (snap_block b n w) n) % n ≡ snap_block b n w
    landed =
        sym (mod-add-mod r n (ringbuf_used (r % n) (snap_block b n w) n))
        ∙ add-ringbuf_used (r % n) (snap_block b n w) n (mod-lt r ring_pos) snap_block-lt
            (omega (arith, blocks_small))

    snapped : snap b w p.rxbuf_size ≡ snap_block b n w * b
    unfolding snap
    snapped = rw size

    jump_blocks :
        ringbuf_used p.rd_ptr (snap b w p.rxbuf_size) p.rxbuf_size / b
        ≡ ringbuf_used (r % n) (snap_block b n w) n
    jump_blocks = rw lost_lem (mul-div_left (ringbuf_used (r % n) (snap_block b n w) n) block_pos)

    pub check_overrun-RxInv :
        ((check_overrun b w p).0 ≡ skipped b n r t w * b)
        × RxInv b n (r + skipped b n r t w) t (check_overrun b w p).1
        × ((check_overrun b w p).1.effects ≡ p.effects)
        × ((check_overrun b w p).1.rxbuf_phys ≡ p.rxbuf_phys)
    unfolding check_overrun skip_overrun
    check_overrun-RxInv = elim (dec_le n (t - r)) [
      | yes over ↦
          ground (arith, max_blocks, blocks_small, lost_lem, landed, jump-lt, snapped, jump_blocks)
      | no behind ↦ ground (arith, max_blocks, blocks_small)
    ]

-- The largest number of blocks that wait is one more than what is left.
pub skipped-lt :
    {b n r t : ℕ} {p : Priv}
    → RxInv b n r t p
    → (w : ℕ) → w < n * b
    → r < t
    → r + skipped b n r t w < t
skipped-lt {b} {n} {r} {t} inv w w_in some_ready = ground (arith, jump-lt inv w w_in)
