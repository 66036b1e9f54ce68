-- ===== src/Txrx/Rx.antt =====
-- rx.c: the data path of the RX thread, from the driver's blocks to the socket. When the thread
-- runs, in step with the TX thread, is in `Session`.
pub mod Stream
pub mod Whole
pub mod Datagrams
pub mod Live
use zyndra.Base.{
  ℕ, zero, suc, List, [], ◌∷◌, ◌++◌, Option, none, some, Bool, true, false, if◌then◌else◌, add64,
}
use zyndra.Ring.{ringbuf_used}
use zyndra.Axi.State.{Priv}
use zyndra.Axi.Read.{RxRead, ReadCall}
use zyndra.Axi.Timer.{timer}
use zyndra.Receiver.{bytes_at}
use zyndra.Txrx.Driver.{Driver, driver_rx_get_block, driver_enable}
use zyndra.Txrx.Net.Tcp.{Answer, Status, ok, error, waiting, tcp_send}
use zyndra.Txrx.Net.Udp.{UdpResult, sent, send_failed, overflow, overread, udp_send_ring}
use zyndra.Txrx.Session.{prefill_blocks}
use zyndra.Txrx.Status.{DirStats}

-- What a round of a loop meets: what the timer callbacks since the last round read from
-- `rx_buf_wr`, the arguments of `read`, what the map holds then, and the answers of the calls of
-- `send`, or that of `sendmmsg`: how many messages it sends, or none for -1.
pub record Round : Type 0 where
  pub ticks : List ℕ
  pub call : ReadCall
  pub map : ℕ → ℕ
  pub answers : List Answer
  pub delivered : Option ℕ

-- How a session ends: the bytes that the socket has taken, the statistics, and the driver.
pub record Ended : Type 0 where
  pub taken : List ℕ
  pub stats : DirStats
  pub driver : Priv

-- The timer callbacks, in order.
unfoldable pub timers : ℕ → List ℕ → Priv → Priv
timers k [] p = p
timers k (wr ∷ wrs) p = timers k wrs (timer k wr p)

-- `k` is the block size of the kernel driver.
module _ (k : ℕ) (d : Driver) where
  abbrev pub count_read : Option RxRead → DirStats → DirStats
  count_read none st = st
  count_read (some r) st = record st {
    buf_used = ringbuf_used r.rd r.hw_wr d.rx_buf_size;
    overrun = add64 st.overrun r.lost_bytes;
  }

  -- `none` is -1.
  unfoldable pub rx_get_block : ReadCall → DirStats → Priv → Option RxRead × DirStats × Priv
  rx_get_block c st p = let (o, q) = driver_rx_get_block k c d p in (o, count_read o st, q)

  abbrev pub count_bytes : DirStats → DirStats
  count_bytes st = record st { bytes = add64 st.bytes d.block_size }

  -- The answer of `rx_get_block`, and what follows if it is a block.
  abbrev pub got : Option RxRead × DirStats × Priv → (RxRead → DirStats → Priv → Ended) → Ended
  got (none, st, p) go = record { taken = []; stats = st; driver = p }
  got (some r, st, p) go = go r st p

  -- The answer of `tcp_send`, and what follows if it is 0. A send that still waits ends what is
  -- known.
  abbrev pub forward : Status × List ℕ → Ended → Ended → Ended
  forward (ok, xs) rest stop = record rest { taken = xs ++ rest.taken }
  forward (error, xs) rest stop = record stop { taken = xs }
  forward (waiting, xs) rest stop = record stop { taken = xs }

  -- The two loops of `rx_tcp_session`; the number is that of the blocks still to be dropped.
  unfoldable pub rx_loop : ℕ → List Round → DirStats → Priv → Ended
  rx_loop n [] st p = record { taken = []; stats = st; driver = p }
  rx_loop (suc n) (r ∷ rs) st p =
      got (rx_get_block r.call st (timers k r.ticks p))
        (λ (x : RxRead) (st : DirStats) (q : Priv). rx_loop n rs st q)
  rx_loop zero (r ∷ rs) st p =
      got (rx_get_block r.call st (timers k r.ticks p)) (λ (x : RxRead) (st : DirStats) (q : Priv).
        forward (tcp_send (bytes_at r.map x.rd d.block_size) r.answers)
          (rx_loop zero rs (count_bytes st) q) (record { taken = []; stats = st; driver = q }))

  abbrev pub if_enabled : Option ℕ × Priv → DirStats → (Priv → Ended) → Ended
  if_enabled (none, p) st go = record { taken = []; stats = st; driver = p }
  if_enabled (some n, p) st go = go p

  -- With TX, the RX thread only signals; alone it enables the FPGA.
  unfoldable pub rx_tcp_session : Bool → Bool → List Round → DirStats → Priv → Ended
  rx_tcp_session with_tx stored rs st p =
      let alone =
        if_enabled (driver_enable k stored d p) st (rx_loop (prefill_blocks d.block_size) rs st) in
      if with_tx then rx_loop (prefill_blocks d.block_size) rs st p else alone

  -- How the UDP loop ends: the datagrams that the socket has taken, and the bytes kept in
  -- `s_wrap_buf`; or that buffer is overrun, or the block read past its end.
  pub data UdpEnded : Type 0 where
    udp_ended : List (List ℕ) → List ℕ → DirStats → Priv → UdpEnded
    udp_overflow : UdpEnded

  abbrev pub and_sent : List (List ℕ) → UdpEnded → UdpEnded
  and_sent msgs (udp_ended more wrap st p) = udp_ended (msgs ++ more) wrap st p
  and_sent msgs udp_overflow = udp_overflow

  abbrev pub after_ring : UdpResult → (List ℕ → UdpEnded) → UdpEnded → UdpEnded
  after_ring (sent msgs rest) go stop = and_sent msgs (go rest)
  after_ring send_failed go stop = stop
  after_ring overflow go stop = udp_overflow
  after_ring overread go stop = udp_overflow

  abbrev pub got_udp :
      Option RxRead × DirStats × Priv → List ℕ → (RxRead → DirStats → Priv → UdpEnded) → UdpEnded
  got_udp (none, st, p) wrap go = udp_ended [] wrap st p
  got_udp (some r, st, p) wrap go = go r st p

  -- The loop of `rx_send_udp`, once the socket is there.
  unfoldable pub rx_send_udp : List Round → List ℕ → DirStats → Priv → UdpEnded
  rx_send_udp [] wrap st p = udp_ended [] wrap st p
  rx_send_udp (r ∷ rs) wrap st p =
      got_udp (rx_get_block r.call st (timers k r.ticks p)) wrap
        (λ (x : RxRead) (st : DirStats) (q : Priv).
          after_ring (udp_send_ring r.delivered wrap (bytes_at r.map x.rd d.block_size))
            (λ (rest : List ℕ). rx_send_udp rs rest (count_bytes st) q) (udp_ended [] [] st q))
