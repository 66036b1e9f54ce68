-- ===== src/Txrx/Net/Tcp.antt =====
-- `tcp_send` and `tcp_recv_full`. The socket is its answers to the calls, in order.
use zyndra.Base.{ℕ, zero, suc, ◌-◌, List, [], ◌∷◌, ◌++◌, take, drop, min}

-- One call of `send` or `recv`: room for (or arrival of) so many bytes, of which the call takes at
-- most the length that it is given; EINTR; another error.
pub data Answer : Type 0 where
  moved : ℕ → Answer
  interrupted : Answer
  socket_error : Answer

-- `waiting`: the answers given so far do not finish the transfer.
pub data Status : Type 0 where
  ok error waiting : Status

-- The status, and the bytes that `send` has taken.
unfoldable pub tcp_send : List ℕ → List Answer → Status × List ℕ
tcp_send [] rs = (ok, [])
tcp_send (x ∷ xs) [] = (waiting, [])
tcp_send (x ∷ xs) (interrupted ∷ rs) = tcp_send (x ∷ xs) rs
tcp_send (x ∷ xs) (socket_error ∷ rs) = (error, [])
tcp_send (x ∷ xs) (moved zero ∷ rs) = (error, [])
tcp_send (x ∷ xs) (moved (suc n) ∷ rs) =
    let (s, sent) = tcp_send (drop n xs) rs in (s, x ∷ (take n xs ++ sent))

-- The status, the bytes stored at `buf`, and what is left of the incoming stream.
unfoldable pub tcp_recv_full : ℕ → List ℕ → List Answer → Status × List ℕ × List ℕ
tcp_recv_full zero stream rs = (ok, [], stream)
tcp_recv_full (suc len) stream [] = (waiting, [], stream)
tcp_recv_full (suc len) stream (interrupted ∷ rs) = tcp_recv_full (suc len) stream rs
tcp_recv_full (suc len) stream (socket_error ∷ rs) = (error, [], stream)
tcp_recv_full (suc len) stream (moved zero ∷ rs) = (error, [], stream)
tcp_recv_full (suc len) stream (moved (suc m) ∷ rs) =
    let n = min (suc m) (suc len) in
    let (s, got, rest) = tcp_recv_full (suc len - n) (drop n stream) rs in
    (s, take n stream ++ got, rest)
