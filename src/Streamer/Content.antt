-- ===== src/Streamer/Content.antt =====
-- What a client of the streamer gets of the FPGA's stream.
use native.Mathlib.Nat.{mod-eq_of_lt}
use zyndra.Base.{
  ℕ, ◌+◌, ◌-◌, ◌*◌, ◌%◌, ◌^◌, ◌≤◌, ◌<◌, ◌≡◌, sym, ap, ap₂, ◌∙◌, arith, false, List, [], ◌∷◌, ◌++◌,
  ltb,
}
use zyndra.Ring.{ringbuf_used}
use zyndra.Ring.Blocks.{next-block, mul-mod}
use zyndra.Ring.Distance.{ringbuf_used-mod}
use zyndra.Axi.Rx.Content.{HoldsStream, block_in_ring, bytes_at-add}
use zyndra.Receiver
use zyndra.Streamer.{Streamer, fpga_reset_and_enable, Round, bytes_at, advance, go_on, turn}
use zyndra.Streamer.Turns.{bytes_at-Receiver, turn-waits, turn-sends}

-- The driver, and absolute counts since the client came: `written` bytes by the FPGA, `passed`
-- blocks sent.
pub record Stream : Type 0 where
  pub driver : Streamer
  pub written : ℕ
  pub passed : ℕ

module _ (b n : ℕ) where
  -- Executions, and what the client has got. The FPGA stays less than a ring ahead of the driver,
  -- which does not look for an overrun.
  pub data Follows (f : ℕ → ℕ) : List ℕ → Stream → Type 0 where
    begins :
        (p : Streamer)
        → 0 < b
        → 0 < n
        → n * b < 2 ^ 31
        → p.rxbuf_size ≡ n * b
        → Follows f [] (record { driver = fpga_reset_and_enable p; written = 0; passed = 0 })
    writes :
        {out : List ℕ} {s : Stream} (d : ℕ)
        → Follows f out s
        → s.written + d < s.passed * b + n * b
        → Follows f out (record s { written = s.written + d })
    waits :
        {out : List ℕ} {s : Stream} (r : Round) (q : Streamer)
        → Follows f out s
        → turn b r s.driver ≡ go_on [] q
        → Follows f out (record s { driver = q })
    turns :
        {out bytes : List ℕ} {s : Stream} (r : Round) (off : ℕ) (q : Streamer)
        → Follows f out s
        → r.wr_ptr ≡ s.written % (n * b)
        → HoldsStream f (n * b) s.written r.ring
        → turn b r s.driver ≡ go_on ((off, bytes) ∷ []) q
        → Follows f (out ++ bytes) (record s { driver = q; passed = s.passed + 1 })

  record IsFollowing (f : ℕ → ℕ) (out : List ℕ) (s : Stream) : Type 0 where
    block_pos : 0 < b
    ring_pos : 0 < n
    fits : n * b < 2 ^ 31
    size : s.driver.rxbuf_size ≡ n * b
    at : s.driver.rd_ptr ≡ s.passed % n * b
    low : s.passed * b ≤ s.written
    high : s.written < s.passed * b + n * b
    sent : out ≡ Receiver.bytes_at f 0 (s.passed * b)

  turns-IsFollowing :
      {f : ℕ → ℕ} {out bytes : List ℕ} {s : Stream} (r : Round) (off : ℕ) (q : Streamer)
      → IsFollowing f out s
      → r.wr_ptr ≡ s.written % (n * b)
      → HoldsStream f (n * b) s.written r.ring
      → turn b r s.driver ≡ go_on ((off, bytes) ∷ []) q
      → IsFollowing f (out ++ bytes) (record s { driver = q; passed = s.passed + 1 })
  unfolding advance
  turns-IsFollowing {f} {out} {bytes} {s} r off q v wr holds e =
      let (enough, same, next) = turn-sends b r s.driver q off bytes e in
      record {
        block_pos = v.block_pos;
        ring_pos = v.ring_pos;
        fits = v.fits;
        size = ap (λ (t : Streamer). t.rxbuf_size) next ∙ v.size;
        at =
            ap (λ (t : Streamer). t.rd_ptr) next
            ∙ rw (v.at, v.size) (next-block b n v.block_pos v.ring_pos s.passed v.fits);
        low = omega (arith, step, whole enough);
        high = omega (arith, step, v.high);
        sent =
            ap₂ (λ x y. x ++ y) v.sent (same ∙ block enough)
            ∙ (ap (λ a. Receiver.bytes_at f 0 (s.passed * b) ++ Receiver.bytes_at f a b)
                  {x = s.passed * b} {y = 0 + s.passed * b} (omega arith)
                ∙ (bytes_at-add f 0 (s.passed * b) b
                    ∙ ap (Receiver.bytes_at f 0) {x = s.passed * b + b} (omega (arith, step))));
      }
    where
      step : (s.passed + 1) * b ≡ s.passed * b + b
      step = grind arith

      used : ringbuf_used s.driver.rd_ptr r.wr_ptr s.driver.rxbuf_size ≡ s.written - s.passed * b
      used =
          rw (v.at, wr, v.size)
            (ap (λ (t : ℕ). ringbuf_used t (s.written % (n * b)) (n * b))
                (sym (mul-mod b n v.block_pos v.ring_pos s.passed))
              ∙ ringbuf_used-mod (s.passed * b) s.written (n * b) v.low v.high
                  (omega (arith, v.fits)))

      whole :
          ltb (ringbuf_used s.driver.rd_ptr r.wr_ptr s.driver.rxbuf_size) b ≡ false
          → (s.passed + 1) * b ≤ s.written
      whole enough = ground (arith, used, step, v.low)

      block :
          ltb (ringbuf_used s.driver.rd_ptr r.wr_ptr s.driver.rxbuf_size) b ≡ false
          → bytes_at r.ring s.driver.rd_ptr b ≡ Receiver.bytes_at f (s.passed * b) b
      block enough =
          bytes_at-Receiver r.ring s.driver.rd_ptr b
          ∙ (ap (λ a. Receiver.bytes_at r.ring a b) v.at
              ∙ block_in_ring b n f r.ring s.passed s.written v.block_pos v.ring_pos holds
                  (whole enough) (omega (arith, v.high)))

  Follows-IsFollowing :
      {f : ℕ → ℕ} {out : List ℕ} {s : Stream} → Follows f out s → IsFollowing f out s
  unfolding fpga_reset_and_enable Receiver.bytes_at
  Follows-IsFollowing {f} (begins p b_pos n_pos fit size) = record {
    block_pos = b_pos;
    ring_pos = n_pos;
    fits = fit;
    size = size;
    at = sym (ap (λ (k : ℕ). k * b) {y = 0} (mod-eq_of_lt n_pos) ∙ omega arith);
    low = omega arith;
    high = grind (arith, b_pos, n_pos);
    sent = ap (Receiver.bytes_at f 0) {x = 0} {y = 0 * b} (omega arith);
  }
  Follows-IsFollowing (writes d h lt) =
      let v = Follows-IsFollowing h in
      record {
        block_pos = v.block_pos;
        ring_pos = v.ring_pos;
        fits = v.fits;
        size = v.size;
        at = v.at;
        low = omega (arith, v.low);
        high = lt;
        sent = v.sent;
      }
  Follows-IsFollowing (waits {s = s} r q h e) =
      let v = Follows-IsFollowing h in
      let (size, at) = turn-waits b r s.driver q e in
      record {
        block_pos = v.block_pos;
        ring_pos = v.ring_pos;
        fits = v.fits;
        size = size ∙ v.size;
        at = at ∙ v.at;
        low = v.low;
        high = v.high;
        sent = v.sent;
      }
  Follows-IsFollowing (turns r off q h wr holds e) =
      turns-IsFollowing r off q (Follows-IsFollowing h) wr holds e

  -- On a ring of whole blocks below 2^31 bytes: while the FPGA stays less than a ring ahead of the
  -- driver, a client that stays gets exactly the first blocks of the FPGA's stream since it came,
  -- in order and whole, whatever the order of the FPGA's writes and the rounds of the loop. The
  -- driver itself does not look whether the FPGA has gone round the ring.
  pub Follows-stream :
      {f : ℕ → ℕ} {out : List ℕ} {s : Stream}
      → Follows f out s
      → (out ≡ Receiver.bytes_at f 0 (s.passed * b)) × (s.passed * b ≤ s.written)
  Follows-stream h = let v = Follows-IsFollowing h in (v.sent, v.low)
