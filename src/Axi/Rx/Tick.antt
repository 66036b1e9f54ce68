-- ===== src/Axi/Rx/Tick.antt =====
-- The timer callback counts exactly the blocks that the FPGA has completed.
use native.Mathlib.Nat.{mod-add-mod, le-div_iff_mul-le}
use native.Mathlib.Nat.{div-mul-le_self, add-mul-div_right}
use zyndra.Base.{ℕ, ◌+◌, ◌-◌, ◌*◌, ◌/◌, ◌%◌, ◌^◌, ◌≤◌, ◌<◌, ◌≡◌, ap, ◌∙◌, arith, add32, mul32}
use zyndra.Ring.{ringbuf_used}
use zyndra.Ring.Distance.{ringbuf_used-mod}
use zyndra.Ring.Blocks.{mul-mod, mul-mod-lt}
use zyndra.Axi.State.{Priv}
use zyndra.Axi.Timer.{accept_blocks, timer}
use zyndra.Axi.Rx.Inv.{RxInv}

module _ {b n r t : ℕ} {p : Priv} (inv : RxInv b n r t p) (w : ℕ) (lo : t * b ≤ w)
    (hi : w < t * b + n * b) where
  open inv use {block_pos, ring_pos, fits, size, read_at, timer_at, order, ready, counted}

  delta_lem : ringbuf_used p.timer_wr_ptr (w % (n * b)) p.rxbuf_size ≡ w - t * b
  delta_lem =
      rw (timer_at, size, ← mul-mod b n block_pos ring_pos t)
        (ringbuf_used-mod (t * b) w (n * b) lo hi (omega arith))

  blocks_lem : (w - t * b) / b ≡ w / b - t
  blocks_lem = omega (
    arith,
    add-mul-div_right (w - t * b) t block_pos,
    ap (λ (x : ℕ). x / b) {x = w - t * b + t * b} {y = w} (omega arith),
  )

  advance_le : (w / b - t) * b ≤ w - t * b
  advance_le = rw (← blocks_lem) (div-mul-le_self (w - t * b) b)

  reached : t ≤ w / b
  reached = (le-div_iff_mul-le block_pos).1 lo

  -- Where the callback moves its pointer to.
  pointer_lem : add32 p.timer_wr_ptr (mul32 (w / b - t) b) % p.rxbuf_size ≡ w / b % n * b
  pointer_lem =
      rw (timer_at, size, no_wrap, mul-mod b n block_pos ring_pos (t % n + (w / b - t)))
        (ap (λ x. x * b) (mod-add-mod t n (w / b - t) ∙ ap (λ x. x % n) (omega (arith, reached))))
    where
      no_wrap : add32 (t % n * b) (mul32 (w / b - t) b) ≡ (t % n + (w / b - t)) * b
      no_wrap = omega (arith, advance_le, mul-mod-lt b n block_pos ring_pos t)

  -- If the FPGA has written `w` bytes since it was enabled, at least to the block last counted
  -- and less than a ring beyond, and the wait count stays in an `int`, a timer callback brings
  -- the driver's count to exactly the whole blocks in `w`, and keeps the receive invariant.
  pub timer-RxInv : w / b - r < 2 ^ 31 → RxInv b n r (w / b) (timer b (w % (n * b)) p)
  unfolding timer accept_blocks
  timer-RxInv few = ground (arith, delta_lem, blocks_lem, reached, pointer_lem)
