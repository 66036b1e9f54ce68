-- ===== src/Txrx/Net/Udp.antt =====
-- `udp_send_ring`: cuts a byte stream into datagrams of DATAGRAM_SIZE bytes; what does not fill one
-- is kept for the next call.
use zyndra.Base.{
  ℕ, zero, suc, ◌-◌, Bool, List, [], ◌∷◌, ◌++◌, take, drop, length, ltb, leb, if◌then◌else◌, true,
  false, Option, none, some, ◌&&◌,
}

abbrev pub datagram_size : ℕ
datagram_size = 1472

abbrev pub max_msgs : ℕ
max_msgs = 64

-- The datagrams given to `sendmmsg`, oldest first, and the bytes that the loop leaves. The number is
-- that of the message slots left.
unfoldable pub cut : ℕ → List ℕ → List (List ℕ) × List ℕ
cut zero bytes = ([], bytes)
cut (suc slots) bytes =
    let (msgs, rest) = cut slots (drop datagram_size bytes) in
    if leb datagram_size (length bytes)
    then (take datagram_size bytes ∷ msgs, rest)
    else ([], bytes)

-- `wrap` is the content of `s_wrap_buf` up to `s_wrap_pos`. A call with data completes the kept
-- datagram first.
unfoldable pub packetize : List ℕ → List ℕ → List (List ℕ) × List ℕ
packetize [] bytes = cut max_msgs bytes
packetize (x ∷ xs) bytes =
    let wrap = x ∷ xs in
    let need = datagram_size - length wrap in
    let (msgs, rest) = cut (max_msgs - 1) (drop need bytes) in
    ((wrap ++ take need bytes) ∷ msgs, rest)

-- `sent`: the datagrams that the socket has taken, and the bytes kept. `overflow`: the last `memcpy`
-- would write past the end of `s_wrap_buf`. `overread`: the first would read past the data, and
-- `len` wrap around.
pub data UdpResult : Type 0 where
  sent : List (List ℕ) → List ℕ → UdpResult
  send_failed : UdpResult
  overflow : UdpResult
  overread : UdpResult

-- The answer of `sendmmsg` is the number of messages that it has sent, or none for -1.
abbrev pub has_failed : Option ℕ → Bool
has_failed none = true
has_failed (some n) = false

abbrev pub taken_of : Option ℕ → List (List ℕ) → List (List ℕ)
taken_of none msgs = []
taken_of (some n) msgs = take n msgs

-- A positive answer is not compared with the number of messages. After a failure `s_wrap_pos` is 0.
unfoldable pub udp_send_ring : Option ℕ → List ℕ → List ℕ → UdpResult
udp_send_ring answer wrap bytes =
    let (msgs, rest) = packetize wrap bytes in
    if ltb 0 (length wrap) && ltb (length bytes) (datagram_size - length wrap)
    then overread
    else if ltb 0 (length msgs) && has_failed answer
    then send_failed
    else if ltb datagram_size (length rest)
    then overflow
    else sent (taken_of answer msgs) rest
