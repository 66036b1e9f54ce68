-- ===== src/Streamer/Order.antt =====
-- What a client of the streamer receives, and when the FPGA runs.
use native.Mathlib.Nat.{mod-eq_of_lt}
use zyndra.Base.{
  ℕ, zero, suc, ◌+◌, ◌*◌, ◌%◌, ◌^◌, ◌≤◌, ◌<◌, ◌≡◌, ◌⊎◌, inl, inr, refl, ◌∙◌, arith, List, [], ◌∷◌,
  take, drop, length, length-take, length-append, length-drop, ltb, Bool-cases,
}
use zyndra.Ring.{ringbuf_used}
use zyndra.Ring.Blocks.{next-block}
use zyndra.Streamer.{
  Streamer, fpga_reset_and_enable, Sent, moved, failed, SendEnd, send_ok, send_failed, send_waits,
  ksock_send, Round, bytes_at, advance, Ended, Output, Turn, go_on, finish, after_send, turn,
  resume, stream_loop, stream_to_client,
}

length-bytes_at : (ring : ℕ → ℕ) (off n : ℕ) → length (bytes_at ring off n) ≡ n
unfolding bytes_at
length-bytes_at ring off zero = refl
length-bytes_at ring off (suc n) = omega (arith, length-bytes_at ring (off + 1) n)

-- A send takes at most the buffer, and all of it when it succeeds.
length-ksock_send :
    (buf : List ℕ) (answers : List Sent)
    → (length (ksock_send buf answers).1 ≤ length buf)
      × ((ksock_send buf answers).0 ≡ send_ok → length (ksock_send buf answers).1 ≡ length buf)
unfolding ksock_send
length-ksock_send [] answers = ground arith
length-ksock_send (x ∷ xs) [] = ground arith
length-ksock_send (x ∷ xs) (failed ∷ answers) = ground arith
length-ksock_send (x ∷ xs) (moved zero ∷ answers) = ground arith
length-ksock_send (x ∷ xs) (moved (suc n) ∷ answers) = ground (
  arith,
  length-ksock_send (drop n xs) answers,
  length-append (take n xs) (ksock_send (drop n xs) answers).1,
  length-take n xs,
  length-drop n xs,
)

-- The blocks of a ring of `n` from the `r`-th on, in order; only the last may be cut short.
abbrev pub InOrder : ℕ → ℕ → ℕ → Output → Type 0
InOrder b n r [] = Unit
InOrder b n r ((off, bytes) ∷ out) =
    (off ≡ r % n * b)
    × (length bytes ≤ b)
    × ((length bytes ≡ b) ⊎ (out ≡ []))
    × InOrder b n (r + 1) out

Turn-cases :
    (t : Turn)
    → ((out : Output) × (q : Streamer) × (t ≡ go_on out q))
      ⊎ ((why : Ended) × (out : Output) × (q : Streamer) × (t ≡ finish why out q))
Turn-cases (go_on out q) = inl (out, q, refl)
Turn-cases (finish why out q) = inr (why, out, q, refl)

module _ (b n : ℕ) (b_pos : 0 < b) (n_pos : 0 < n) (fits : n * b < 2 ^ 31) where
  record IsAt (r : ℕ) (p : Streamer) : Type 0 where
    size : p.rxbuf_size ≡ n * b
    at : p.rd_ptr ≡ r % n * b

  advance-IsAt : (r : ℕ) (p : Streamer) → IsAt r p → IsAt (r + 1) (advance b p)
  unfolding advance
  advance-IsAt r p v = record {
    size = v.size;
    at = rw (v.at, v.size) (next-block b n b_pos n_pos r fits);
  }

  TurnOk : ℕ → Turn → Type 0
  TurnOk r (go_on [] q) = IsAt r q
  TurnOk r (go_on ((off, bytes) ∷ []) q) = (off ≡ r % n * b) × (length bytes ≡ b) × IsAt (r + 1) q
  TurnOk r (go_on (x ∷ y ∷ out) q) = ⊥
  TurnOk r (finish why out q) = InOrder b n r out

  after_send-TurnOk :
      (r : ℕ) (end : SendEnd) (sent : List ℕ) (p : Streamer)
      → IsAt r p
      → length sent ≤ b
      → (end ≡ send_ok → length sent ≡ b)
      → TurnOk r (after_send b end sent p)
  unfolding TurnOk after_send
  after_send-TurnOk r send_ok sent p v le full = (v.at, full refl, advance-IsAt r p v)
  after_send-TurnOk r send_failed sent p v le full = (v.at, le, inr refl, tt)
  after_send-TurnOk r send_waits sent p v le full = (v.at, le, inr refl, tt)

  turn-TurnOk : (r : ℕ) (rd : Round) (p : Streamer) → IsAt r p → TurnOk r (turn b rd p)
  unfolding turn TurnOk
  turn-TurnOk r rd p v =
      let (le, full) = length-ksock_send (bytes_at rd.ring p.rd_ptr b) rd.answers in
      let len = length-bytes_at rd.ring p.rd_ptr b in
      elim (Bool-cases (ltb (ringbuf_used p.rd_ptr rd.wr_ptr p.rxbuf_size) b)) [
        | inl e ↦ rw e (record { size = v.size; at = v.at })
        | inr e ↦ rw e (
            after_send-TurnOk r _ _ _ (record { size = v.size; at = v.at }) (omega (arith, le, len))
              (λ ok. full ok ∙ len))
      ]

  resume-InOrder :
      (rs : List Round)
      → ((r : ℕ) (p : Streamer) → IsAt r p → InOrder b n r (stream_loop b rs p).1)
      → (r : ℕ) (t : Turn) → TurnOk r t
      → InOrder b n r (resume (stream_loop b rs) t).1
  unfolding TurnOk resume
  resume-InOrder rs rest r (go_on [] q) v = rest r q v
  resume-InOrder rs rest r (go_on ((off, bytes) ∷ []) q) v =
      (v.0, omega (arith, v.1), inl v.1, rest (r + 1) q v.2)
  resume-InOrder rs rest r (go_on (x ∷ y ∷ out) q) v = absurd v
  resume-InOrder rs rest r (finish why out q) v = v

  stream_loop-InOrder :
      (rs : List Round) (r : ℕ) (p : Streamer) → IsAt r p → InOrder b n r (stream_loop b rs p).1
  unfolding stream_loop
  stream_loop-InOrder [] r p v = tt
  stream_loop-InOrder (rd ∷ rs) r p v =
      resume-InOrder rs (stream_loop-InOrder rs) r (turn b rd p) (turn-TurnOk r rd p v)

  -- Over a ring of whole blocks, whatever the FPGA's pointer and the socket do, the client is sent
  -- the blocks of the ring one after the other from the first on, going round at the end, each in
  -- full except that the last may be cut short when the client is gone or the send waits.
  pub stream_to_client-InOrder :
      (rs : List Round) (p : Streamer)
      → p.rxbuf_size ≡ n * b
      → InOrder b n 0 (stream_to_client b rs p).1
  unfolding stream_to_client fpga_reset_and_enable
  stream_to_client-InOrder rs p size =
      stream_loop-InOrder rs 0 (fpga_reset_and_enable p)
        (record { size = size; at = rw (mod-eq_of_lt n_pos) (omega arith) })
