-- ===== src/Axi/Rx/Stall.antt =====
-- A reader that has fallen two rings behind.
use zyndra.Base.{
  ℕ, ◌+◌, ◌-◌, ◌*◌, ◌%◌, ◌≤◌, ◌<◌, ◌≡◌, arith, false, true, ap, sym, ◌∙◌, subst, le→leb,
}
use zyndra.Ring.{ringbuf_used}
use zyndra.Axi.State.{Priv, Outcome, ret, blocked, fail}
use zyndra.Axi.Read.{
  ReadCall, RxRead, sizeof_rx_read, read, deliver, take_block, advance_rd, check_overrun,
  skip_overrun,
}
use zyndra.Axi.Rx.Inv.{RxInv}
use zyndra.Axi.Rx.Overrun.{skipped, snap_block, landed, jump-lt}
use zyndra.Axi.Rx.Serve.{read-serves}

-- The offset that a call returned, if it returned one.
abbrev pub offset_of : Outcome RxRead → ℕ
offset_of (ret x) = x.rd
offset_of blocked = 0
offset_of (fail e) = 0

-- No branch of `read` touches `closing`.
pub closing-read : (b : ℕ) (c : ReadCall) (p : Priv) → (read b c p).1.closing ≡ p.closing
unfolding read deliver take_block advance_rd check_overrun skip_overrun
closing-read b c p = ground arith

module _ {b n r t : ℕ} {p : Priv} (c : ReadCall) (inv : RxInv b n r t p)
    (w_in : c.wr_overrun < n * b) (behind : r + n ≤ t) (is_open : p.closing ≡ false)
    (fits : sizeof_rx_read ≤ c.count) (copied : c.copied ≡ true) where
  jump : skipped b n r t c.wr_overrun ≡ ringbuf_used (r % n) (snap_block b n c.wr_overrun) n
  jump = rw (le→leb n (t - r) (omega arith))

  landed_at : (r + skipped b n r t c.wr_overrun) % n ≡ snap_block b n c.wr_overrun
  landed_at = ap (λ x. (r + x) % n) jump ∙ landed inv c.wr_overrun w_in

  overrun_offset : offset_of (read b c p).0 ≡ snap_block b n c.wr_overrun * b
  overrun_offset =
      ap offset_of (read-serves c inv w_in (omega (arith, inv.ring_pos)) is_open fits copied).0
      ∙ ap (λ x. x * b) landed_at

  overrun_left : RxInv b n (r + skipped b n r t c.wr_overrun + 1) t (read b c p).1
  overrun_left = (read-serves c inv w_in (omega (arith, inv.ring_pos)) is_open fits copied).1

  overrun_few : skipped b n r t c.wr_overrun < n
  overrun_few = rw jump (jump-lt inv c.wr_overrun w_in)

module _ {b n r t : ℕ} {p : Priv} (c c' : ReadCall) (inv : RxInv b n r t p)
    (w_in : c.wr_overrun < n * b) (same : c'.wr_overrun ≡ c.wr_overrun) (stalled : r + 2 * n ≤ t)
    (is_open : p.closing ≡ false) (fits : sizeof_rx_read ≤ c.count)
    (fits' : sizeof_rx_read ≤ c'.count) (copied : c.copied ≡ true)
    (copied' : c'.copied ≡ true) where
  -- For a reader two rings behind or more, two successful calls between which the write pointer
  -- does not move return the same block.
  pub stalled-rereads : offset_of (read b c' (read b c p).1).0 ≡ offset_of (read b c p).0
  stalled-rereads =
      overrun_offset c' (overrun_left c inv w_in (omega arith) is_open fits copied)
        (subst (λ x. x < n * b) (sym same) w_in)
        (omega (arith, overrun_few c inv w_in (omega arith) is_open fits copied))
        (closing-read b c p ∙ is_open) fits' copied'
      ∙ (ap (λ x. snap_block b n x * b) same
          ∙ sym (overrun_offset c inv w_in (omega arith) is_open fits copied))
