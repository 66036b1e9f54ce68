-- ===== src/Streamer/Turns.antt =====
-- What a round of the streamer's loop does, where it waits and where it sends a block.
use zyndra.Base.{
  ℕ, zero, suc, ◌+◌, ◌≡◌, refl, sym, ap, ◌∙◌, true, false, List, [], ◌∷◌, ◌++◌, take, drop,
  take-append-drop, ltb, Bool, add32, if◌then◌else◌,
}
use zyndra.Ring.{ringbuf_used}
use zyndra.Receiver
use zyndra.Streamer.{
  Streamer, Sent, moved, failed, SendEnd, send_ok, send_failed, send_waits, ksock_send, Round,
  bytes_at, advance, go_on, after_send, turn, slept, sync_for_cpu,
}

pub bytes_at-Receiver : (g : ℕ → ℕ) (a n : ℕ) → bytes_at g a n ≡ Receiver.bytes_at g a n
unfolding bytes_at Receiver.bytes_at
bytes_at-Receiver g a zero = refl
bytes_at-Receiver g a (suc n) = ap (λ t. g a ∷ t) (bytes_at-Receiver g (a + 1) n)

ksock_send-ok :
    (buf : List ℕ) (answers : List Sent)
    → (ksock_send buf answers).0 ≡ send_ok
    → (ksock_send buf answers).1 ≡ buf
unfolding ksock_send
ksock_send-ok [] answers h = refl
ksock_send-ok (x ∷ xs) [] h = cc
ksock_send-ok (x ∷ xs) (failed ∷ answers) h = cc
ksock_send-ok (x ∷ xs) (moved zero ∷ answers) h = cc
ksock_send-ok (x ∷ xs) (moved (suc n) ∷ answers) h =
    ap (λ t. x ∷ t)
      (ap (λ t. take n xs ++ t) (ksock_send-ok (drop n xs) answers h) ∙ take-append-drop n xs)

module _ (b : ℕ) where
  after_send-waits :
      (end : SendEnd) (sent : List ℕ) (p q : Streamer) → after_send b end sent p ≡ go_on [] q → ⊥
  unfolding after_send
  after_send-waits send_ok sent p q e = cc
  after_send-waits send_failed sent p q e = cc
  after_send-waits send_waits sent p q e = cc

  after_send-sends :
      (end : SendEnd) (sent : List ℕ) (p q : Streamer) (off : ℕ) (bytes : List ℕ)
      → after_send b end sent p ≡ go_on ((off, bytes) ∷ []) q
      → (end ≡ send_ok) × (sent ≡ bytes) × (advance b p ≡ q)
  unfolding after_send
  after_send-sends send_ok sent p q off bytes e = (refl, cc, cc)
  after_send-sends send_failed sent p q off bytes e = absurd cc
  after_send-sends send_waits sent p q off bytes e = absurd cc

  abbrev pub synced : Streamer → Streamer
  synced p = record p { effects = sync_for_cpu (add32 p.rxbuf_phys p.rd_ptr) b ∷ p.effects }

  if-waits :
      (z : Bool) (x : Streamer) (end : SendEnd) (sent : List ℕ) (p q : Streamer)
      → (if z then go_on [] x else after_send b end sent p) ≡ go_on [] q
      → x ≡ q
  if-waits true x end sent p q e = cc
  if-waits false x end sent p q e = absurd (after_send-waits end sent p q e)

  if-sends :
      (z : Bool) (x : Streamer) (end : SendEnd) (sent : List ℕ) (p q : Streamer) (off : ℕ)
      (bytes : List ℕ)
      → (if z then go_on [] x else after_send b end sent p) ≡ go_on ((off, bytes) ∷ []) q
      → (z ≡ false) × (end ≡ send_ok) × (sent ≡ bytes) × (advance b p ≡ q)
  if-sends true x end sent p q off bytes e = absurd cc
  if-sends false x end sent p q off bytes e =
      let (ended, same, next) = after_send-sends end sent p q off bytes e in
      (refl, ended, same, next)

  pub turn-waits :
      (r : Round) (p q : Streamer)
      → turn b r p ≡ go_on [] q
      → (q.rxbuf_size ≡ p.rxbuf_size) × (q.rd_ptr ≡ p.rd_ptr)
  unfolding turn
  turn-waits r p q e =
      let (end, sent) = ksock_send (bytes_at r.ring p.rd_ptr b) r.answers in
      let same =
        if-waits (ltb (ringbuf_used p.rd_ptr r.wr_ptr p.rxbuf_size) b)
          (record p { effects = slept ∷ p.effects }) end sent (synced p) q e in
      (sym (ap (λ (t : Streamer). t.rxbuf_size) same), sym (ap (λ (t : Streamer). t.rd_ptr) same))

  pub turn-sends :
      (r : Round) (p q : Streamer) (off : ℕ) (bytes : List ℕ)
      → turn b r p ≡ go_on ((off, bytes) ∷ []) q
      → (ltb (ringbuf_used p.rd_ptr r.wr_ptr p.rxbuf_size) b ≡ false)
        × (bytes ≡ bytes_at r.ring p.rd_ptr b)
        × (q ≡ advance b (synced p))
  unfolding turn
  turn-sends r p q off bytes e =
      let (end, sent) = ksock_send (bytes_at r.ring p.rd_ptr b) r.answers in
      let (enough, ended, same, next) =
        if-sends (ltb (ringbuf_used p.rd_ptr r.wr_ptr p.rxbuf_size) b)
          (record p { effects = slept ∷ p.effects }) end sent (synced p) q off bytes e in
      (enough, sym same ∙ ksock_send-ok (bytes_at r.ring p.rd_ptr b) r.answers ended, sym next)
