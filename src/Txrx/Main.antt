-- ===== src/Txrx/Main.antt =====
-- The tasks of the two threads from their maps to the close of the device, and the loop of `main` of
-- ad9361_txrx.c over the sessions when only one direction is used.
pub mod Reopen
use zyndra.Base.{ℕ, suc, List, [], ◌∷◌, Option, none, some, Bool, true, false, if◌then◌else◌}
use mathlib.Core.Option
use zyndra.Axi.State.{Priv, Outcome}
use zyndra.Axi.Write.{WriteCall}
use zyndra.Txrx.Driver.{Driver, driver_open, driver_close, driver_rx_mmap, driver_tx_mmap}
use zyndra.Txrx.Session.{Mode, tcp, udp}
use zyndra.Txrx.Status.{DirStats}
use zyndra.Txrx.Rx.{UdpEnded, udp_ended, udp_overflow, rx_tcp_session, rx_send_udp}
use zyndra.Txrx.Tx.{effective_size, tx_tcp_session}
use zyndra.Txrx.Rx
use zyndra.Txrx.Tx

-- What one session meets: the answers of `open`'s register and clock reads, whether `accept`
-- succeeds or, for UDP, the socket and the address are good, whether `put_user` succeeds, and the
-- rounds of the loops.
pub record Inputs : Type 0 where
  pub hw_wr : ℕ
  pub now : ℕ
  pub accepted : Bool
  pub stored : Bool
  pub rx_rounds : List Rx.Round
  pub calls : List WriteCall
  pub tx_rounds : List Tx.Round
  pub stream : List ℕ
  pub content : ℕ → ℕ

-- What a task leaves: the bytes of `s_wrap_buf`, its statistics, and the device.
pub record Left : Type 0 where
  pub wrap : List ℕ
  pub stats : DirStats
  pub driver : Driver
  pub device : Priv

-- The end of a task: `munmap`, which the device does not see, and `driver_close`.
abbrev pub closed_with : Driver → List ℕ → DirStats → Priv → Left
closed_with d wrap st p = record {
  wrap = wrap;
  stats = st;
  driver = (driver_close d p).0;
  device = (driver_close d p).1;
}

module _ (remapped : ℕ → ℕ → Outcome ℕ) (k : ℕ) where
  abbrev pub udp_left : (d : Driver) → UdpEnded k d → Option Left
  udp_left d (udp_ended msgs wrap st p) = some (closed_with d wrap st p)
  udp_left d udp_overflow = none

  abbrev pub if_mapped : Option ℕ → Option Left → Left → Option Left
  if_mapped none go stop = some stop
  if_mapped (some map) go stop = go

  -- `none`: the wrap buffer is overrun. The flag `stored` is that of the ioctl.
  unfoldable pub serve_rx : Mode → Inputs → Driver → List ℕ → DirStats → Priv → Option Left
  serve_rx tcp i d wrap st p =
      let e = rx_tcp_session k d false i.stored i.rx_rounds st p in
      some (if i.accepted then closed_with d wrap e.stats e.driver else closed_with d wrap st p)
  serve_rx udp i d wrap st p =
      if i.accepted
      then udp_left d (rx_send_udp k d i.rx_rounds wrap st p)
      else some (closed_with d wrap st p)

  unfoldable pub rx_task : Mode → Inputs → Driver → List ℕ → DirStats → Priv → Option Left
  rx_task mode i d wrap st p =
      let (o, q) = driver_rx_mmap remapped k d p in
      if_mapped o (serve_rx mode i d wrap (record st { buf_size = d.rx_buf_size }) q)
        (closed_with d wrap st q)

  -- UDP is not implemented for TX.
  unfoldable pub serve_tx : ℕ → Mode → Inputs → Driver → List ℕ → DirStats → Priv → Option Left
  serve_tx size udp i d wrap st p = some (closed_with d wrap st p)
  serve_tx size tcp i d wrap st p =
      let e = tx_tcp_session k size d i.stored i.calls i.tx_rounds i.stream i.content st p in
      some (if i.accepted then closed_with d wrap e.stats e.driver else closed_with d wrap st p)

  -- `limited` and `samples` are those of `effective_size`.
  unfoldable pub tx_task :
      Bool → ℕ → Mode → Inputs → Driver → List ℕ → DirStats → Priv → Option Left
  tx_task limited samples mode i d wrap st p =
      let size = effective_size limited samples d.block_size d.tx_buf_size in
      let (o, q) = driver_tx_mmap remapped k size d p in
      if_mapped o (serve_tx size mode i d wrap (record st { buf_size = size }) q)
        (closed_with d wrap st q)

  -- The direction that is used.
  pub data Direction : Type 0 where
    only_rx : Mode → Direction
    only_tx : Mode → Bool → ℕ → Direction

  unfoldable pub task : Direction → Inputs → Driver → List ℕ → DirStats → Priv → Option Left
  task (only_rx mode) i d wrap st p = rx_task mode i d wrap st p
  task (only_tx mode limited samples) i d wrap st p = tx_task limited samples mode i d wrap st p

  -- After a task, `main` closes the device, which it may find closed; the sessions are counted.
  abbrev pub next : Option Left → (Left → Option (ℕ × Left)) → Option (ℕ × Left)
  next none go = none
  next (some t) go =
      Option.map (λ (r : ℕ × Left). (suc r.0, r.1))
        (go (closed_with t.driver t.wrap t.stats t.device))

  -- How often the loop of `main` has served a session, and the device when it ends or the inputs do.
  unfoldable pub main_loop : Direction → List Inputs → Left → Option (ℕ × Left)
  main_loop dir [] l = some (0, l)
  main_loop dir (i ∷ is) l =
      let (opened, d, p) =
        driver_open k i.stored i.stored i.stored i.hw_wr i.now l.driver l.device in
      if opened
      then next (task dir i d l.wrap l.stats p) (λ (t : Left). main_loop dir is t)
      else some (0, record l { driver = d; device = p })
