-- ===== src/Txrx/Rx/Datagrams.antt =====
-- What leaves by UDP: the blocks of the driver, cut into datagrams.
use zyndra.Base.{ℕ, ◌*◌, ◌≤◌, ◌<◌, ◌≡◌, List, ◌++◌, some, concat, All, length}
use zyndra.Txrx.Driver.{Driver}
use zyndra.Txrx.Net.Udp.{datagram_size, max_msgs}
use zyndra.Txrx.Net.UdpLaws.{IsDatagram}
use zyndra.Txrx.Rx.{Round, UdpEnded, udp_ended, udp_overflow}

module _ (k : ℕ) (d : Driver) (large : datagram_size ≤ d.block_size)
    (fits : d.block_size ≤ datagram_size * max_msgs) where
  -- The datagrams are full and, with the few bytes kept, they are the stream.
  abbrev pub Sends : List ℕ → UdpEnded k d → Type 0
  Sends ys (udp_ended msgs rest st p) =
      (concat msgs ++ rest ≡ ys) × All IsDatagram msgs × (length rest < datagram_size)
  Sends ys udp_overflow = ⊥

  -- `sendmmsg` sends as many messages as it can be given.
  abbrev pub TakesAll : Round → Type 0
  TakesAll r = (n : ℕ) × (r.delivered ≡ some n) × (max_msgs ≤ n)
