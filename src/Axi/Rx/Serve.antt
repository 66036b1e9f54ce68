-- ===== src/Axi/Rx/Serve.antt =====
-- A `read` hands out the next block, or after an overrun the one half a ring behind the FPGA.
use native.Mathlib.Nat.{mod-lt}
use zyndra.Base.{ℕ, ◌+◌, ◌-◌, ◌*◌, ◌%◌, ◌^◌, ◌≤◌, ◌<◌, ◌≡◌, refl, arith, true, false, le→ltb}
use zyndra.Ring.Blocks.{block-le, next-block}
use zyndra.Axi.State.{Priv, ret, is_pos_int}
use zyndra.Axi.Read.{
  RxRead, ReadCall, sizeof_rx_read, check_overrun, take_block, advance_rd, deliver, read,
}
use zyndra.Axi.Rx.Inv.{RxInv}
use zyndra.Axi.Rx.Overrun.{skipped, check_overrun-RxInv, skipped-lt}

module _ {b n r t : ℕ} {p : Priv} (inv : RxInv b n r t p) where
  open inv use {block_pos, ring_pos, fits, size, read_at, timer_at, order, ready, counted}

  next-lt : r % n * b + b ≤ n * b
  next-lt = block-le b n block_pos ring_pos (r % n) (mod-lt r ring_pos)

  advanced : (advance_rd b p).rd_ptr ≡ (r + 1) % n * b
  unfolding advance_rd
  advanced = rw (read_at, size) (next-block b n block_pos ring_pos r fits)

  pub take-advance-RxInv :
      (c : ReadCall) → r < t → RxInv b n (r + 1) t (advance_rd b (take_block b c p))
  unfolding take_block advance_rd
  take-advance-RxInv c some_ready = ground (arith, advanced)

is_pos_int_of : (x : ℕ) → 0 < x → x < 2 ^ 31 → is_pos_int x ≡ true
is_pos_int_of x pos small = ground arith

-- What a successful `read` returns when the driver is open: the start of block `r + k`, where `k`
-- blocks are skipped, and their length.
abbrev pub served : ℕ → ℕ → ℕ → ℕ → ReadCall → RxRead
served b n r t c =
    let k = skipped b n r t c.wr_overrun in
    record { rd = (r + k) % n * b; hw_wr = c.wr_now; lost_bytes = k * b }

module _ {b n r t : ℕ} {p : Priv} (c : ReadCall) (inv : RxInv b n r t p)
    (w_in : c.wr_overrun < n * b) (some_ready : r < t) (is_open : p.closing ≡ false)
    (fits_user : sizeof_rx_read ≤ c.count) (copied : c.copied ≡ true) where
  abbrev after_check : Priv
  after_check = (check_overrun b c.wr_overrun p).1

  passes : read b c p ≡ deliver b c p
  unfolding read
  passes = rw (
    le→ltb c.count sizeof_rx_read fits_user,
    is_open,
    inv.ready,
    is_pos_int_of (t - r) (omega arith) inv.counted,
  )

  delivers : deliver b c p ≡ (ret (served b n r t c), advance_rd b (take_block b c after_check))
  unfolding deliver take_block
  delivers = rw copied ground (arith, check_overrun-RxInv inv c.wr_overrun w_in)

  -- With a block waiting, the device open, room in the caller's buffer and a successful copy, a
  -- call returns the next block after any skipped ones, with the lost bytes it names being the
  -- skipped blocks; it moves the driver past that block and keeps the receive invariant. The
  -- block was counted by the timer, and does not go round the end of the ring.
  pub read-serves :
      ((read b c p).0 ≡ ret (served b n r t c))
      × RxInv b n (r + skipped b n r t c.wr_overrun + 1) t (read b c p).1
      × (r + skipped b n r t c.wr_overrun < t)
      × ((r + skipped b n r t c.wr_overrun) % n * b + b ≤ n * b)
  read-serves =
      rw (passes, delivers)
        (
          refl,
          take-advance-RxInv (check_overrun-RxInv inv c.wr_overrun w_in).1 c before,
          before,
          next-lt (check_overrun-RxInv inv c.wr_overrun w_in).1,
        )
    where
      before : r + skipped b n r t c.wr_overrun < t
      before = skipped-lt inv c.wr_overrun w_in some_ready
