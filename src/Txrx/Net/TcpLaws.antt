-- ===== src/Txrx/Net/TcpLaws.antt =====
-- A finished transfer has moved exactly the buffer; progress finishes it.
use zyndra.Base.{
  ℕ, zero, suc, ◌+◌, ◌-◌, ◌≤◌, ◌<◌, ◌≡◌, refl, ap, ◌∙◌, arith, List, [], ◌∷◌, ◌++◌, take, drop, min,
  length, length-drop, take-append-drop, take-take-drop, drop-drop, append_assoc, All,
}
use zyndra.Txrx.Net.Tcp.{Answer, moved, interrupted, socket_error, ok, tcp_send, tcp_recv_full}

-- Whatever the socket answers, the bytes taken are the front of the buffer; `rest` is what is left.
pub tcp_send-prefix :
    (buf : List ℕ) (rs : List Answer) → (rest : List ℕ) × ((tcp_send buf rs).1 ++ rest ≡ buf)
unfolding tcp_send
tcp_send-prefix [] rs = ([], refl)
tcp_send-prefix (x ∷ xs) [] = (x ∷ xs, refl)
tcp_send-prefix (x ∷ xs) (interrupted ∷ rs) = tcp_send-prefix (x ∷ xs) rs
tcp_send-prefix (x ∷ xs) (socket_error ∷ rs) = (x ∷ xs, refl)
tcp_send-prefix (x ∷ xs) (moved zero ∷ rs) = (x ∷ xs, refl)
tcp_send-prefix (x ∷ xs) (moved (suc n) ∷ rs) =
    let (rest, e) = tcp_send-prefix (drop n xs) rs in
    (
      rest,
      ap (λ t. x ∷ t)
          (append_assoc (take n xs) (tcp_send (drop n xs) rs).1 rest
            ∙ (ap (λ t. take n xs ++ t) e ∙ take-append-drop n xs)),
    )

-- A send that reports success has handed over exactly the buffer.
pub tcp_send-ok :
    (buf : List ℕ) (rs : List Answer) → (tcp_send buf rs).0 ≡ ok → (tcp_send buf rs).1 ≡ buf
unfolding tcp_send
tcp_send-ok [] rs h = refl
tcp_send-ok (x ∷ xs) [] h = cc
tcp_send-ok (x ∷ xs) (interrupted ∷ rs) h = tcp_send-ok (x ∷ xs) rs h
tcp_send-ok (x ∷ xs) (socket_error ∷ rs) h = cc
tcp_send-ok (x ∷ xs) (moved zero ∷ rs) h = cc
tcp_send-ok (x ∷ xs) (moved (suc n) ∷ rs) h =
    ap (λ t. x ∷ t)
      (ap (λ t. take n xs ++ t) (tcp_send-ok (drop n xs) rs h) ∙ take-append-drop n xs)

-- Answers that are no error, and how many of them move bytes.
abbrev pub Progresses : Answer → Type 0
Progresses (moved n) = 0 < n
Progresses interrupted = Unit
Progresses socket_error = ⊥

abbrev pub moves : List Answer → ℕ
moves [] = 0
moves (moved n ∷ rs) = 1 + moves rs
moves (r ∷ rs) = moves rs

-- If the socket never fails and moves bytes at least as often as the buffer is long, interrupted
-- calls aside, the send succeeds and hands over exactly the buffer.
pub tcp_send-finishes :
    (buf : List ℕ) (rs : List Answer)
    → All Progresses rs
    → length buf ≤ moves rs
    → tcp_send buf rs ≡ (ok, buf)
unfolding tcp_send
tcp_send-finishes [] rs g h = refl
tcp_send-finishes (x ∷ xs) [] g h = absurd (omega arith)
tcp_send-finishes (x ∷ xs) (interrupted ∷ rs) g h = tcp_send-finishes (x ∷ xs) rs g.1 h
tcp_send-finishes (x ∷ xs) (socket_error ∷ rs) g h = absurd g.0
tcp_send-finishes (x ∷ xs) (moved zero ∷ rs) g h = absurd (omega arith)
tcp_send-finishes (x ∷ xs) (moved (suc n) ∷ rs) g h =
    rw (tcp_send-finishes (drop n xs) rs g.1 (omega (arith, length-drop n xs)))
      (ap (λ t. (ok, x ∷ t)) (take-append-drop n xs))

-- A receive that reports success stores exactly the first `len` bytes of the stream, and leaves
-- the rest in it.
pub tcp_recv_full-ok :
    (len : ℕ) (stream : List ℕ) (rs : List Answer)
    → (tcp_recv_full len stream rs).0 ≡ ok
    → ((tcp_recv_full len stream rs).1 ≡ take len stream)
      × ((tcp_recv_full len stream rs).2 ≡ drop len stream)
unfolding tcp_recv_full
tcp_recv_full-ok zero stream rs h = (refl, refl)
tcp_recv_full-ok (suc len) stream [] h = cc
tcp_recv_full-ok (suc len) stream (interrupted ∷ rs) h = tcp_recv_full-ok (suc len) stream rs h
tcp_recv_full-ok (suc len) stream (socket_error ∷ rs) h = cc
tcp_recv_full-ok (suc len) stream (moved zero ∷ rs) h = cc
tcp_recv_full-ok (suc len) stream (moved (suc m) ∷ rs) h =
    let n = min (suc m) (suc len) in
    let ih = tcp_recv_full-ok (suc len - n) (drop n stream) rs h in
    let whole : n + (suc len - n) ≡ suc len = omega arith in
    (
      ap (λ t. take n stream ++ t) ih.0
          ∙ (take-take-drop n (suc len - n) stream ∙ ap (λ k. take k stream) whole),
      ih.1 ∙ (drop-drop n (suc len - n) stream ∙ ap (λ k. drop k stream) whole),
    )

-- If the socket never fails and moves bytes at least `len` times, interrupted calls aside, the
-- receive succeeds.
pub tcp_recv_full-finishes :
    (len : ℕ) (stream : List ℕ) (rs : List Answer)
    → All Progresses rs
    → len ≤ moves rs
    → (tcp_recv_full len stream rs).0 ≡ ok
unfolding tcp_recv_full
tcp_recv_full-finishes zero stream rs g h = refl
tcp_recv_full-finishes (suc len) stream [] g h = absurd (omega arith)
tcp_recv_full-finishes (suc len) stream (interrupted ∷ rs) g h =
    tcp_recv_full-finishes (suc len) stream rs g.1 h
tcp_recv_full-finishes (suc len) stream (socket_error ∷ rs) g h = absurd g.0
tcp_recv_full-finishes (suc len) stream (moved zero ∷ rs) g h = absurd (omega arith)
tcp_recv_full-finishes (suc len) stream (moved (suc m) ∷ rs) g h =
    tcp_recv_full-finishes (suc len - min (suc m) (suc len)) (drop (min (suc m) (suc len)) stream)
      rs g.1 (omega arith)
