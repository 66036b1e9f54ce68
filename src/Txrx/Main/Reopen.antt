-- ===== src/Txrx/Main/Reopen.antt =====
-- Each session ends with the device free, so that the next one can open it.
use mathlib.Core.Option
use zyndra.Base.{
  ℕ, suc, ◌≡◌, refl, ap, ◌∙◌, arith, List, [], ◌∷◌, Option, none, some, Bool, true, false, All,
  length, Bool-cases, inl, inr, ◌==◌, ◌&&◌,
}
use zyndra.Axi.State.{Priv, Outcome}
use zyndra.Axi.Control.{release}
use zyndra.Txrx.Driver.{Driver, driver_open, driver_close, driver_rx_mmap, driver_tx_mmap}
use zyndra.Txrx.Driver.Opened.{driver_open_lem}
use zyndra.Txrx.Session.{Mode, tcp, udp}
use zyndra.Txrx.Status.{DirStats}
use zyndra.Txrx.Rx.{UdpEnded, udp_ended, udp_overflow, rx_tcp_session, rx_send_udp}
use zyndra.Txrx.Tx.{effective_size, tx_tcp_session}
use zyndra.Txrx.Main.{
  Inputs, Left, closed_with, udp_left, if_mapped, serve_rx, rx_task, serve_tx, tx_task, Direction,
  only_rx, only_tx, task, next, main_loop,
}

-- The device is free, and the descriptor closed.
pub record IsFree (l : Left) : Type 0 where
  pub free : l.device.in_use ≡ 0
  pub shut : l.driver.fd_open ≡ false

closed_with-IsFree :
    (d : Driver) (wrap : List ℕ) (st : DirStats) (p : Priv)
    → d.fd_open ≡ true
    → IsFree (closed_with d wrap st p)
unfolding driver_close release
closed_with-IsFree d wrap st p h = ground (arith, h)

-- A second close changes nothing.
closed_again-IsFree : (l : Left) → IsFree l → IsFree (closed_with l.driver l.wrap l.stats l.device)
unfolding driver_close release
closed_again-IsFree l h = ground (arith, h.free, h.shut)

module _ (remapped : ℕ → ℕ → Outcome ℕ) (k : ℕ) where
  -- Only the UDP receiver can fail to return.
  abbrev Frees : Direction remapped k → Option Left → Type 0
  Frees dir none = dir ≡ only_rx udp
  Frees dir (some l) = IsFree l

  udp_left-Frees :
      (d : Driver) (e : UdpEnded k d)
      → d.fd_open ≡ true
      → Frees (only_rx udp) (udp_left remapped k d e)
  udp_left-Frees d (udp_ended msgs wrap st p) h = closed_with-IsFree d wrap st p h
  udp_left-Frees d udp_overflow h = refl

  serve_rx-Frees :
      (mode : Mode) (i : Inputs) (d : Driver) (wrap : List ℕ) (st : DirStats) (p : Priv)
      → d.fd_open ≡ true
      → Frees (only_rx mode) (serve_rx remapped k mode i d wrap st p)
  unfolding serve_rx
  serve_rx-Frees tcp i d wrap st p h =
      let e = rx_tcp_session k d false i.stored i.rx_rounds st p in
      elim (Bool-cases i.accepted) [
        | inl served ↦ rw served (closed_with-IsFree d wrap e.stats e.driver h)
        | inr alone ↦ rw alone (closed_with-IsFree d wrap st p h)
      ]
  serve_rx-Frees udp i d wrap st p h = elim (Bool-cases i.accepted) [
    | inl served ↦ rw served (udp_left-Frees d (rx_send_udp k d i.rx_rounds wrap st p) h)
    | inr alone ↦ rw alone (closed_with-IsFree d wrap st p h)
  ]

  serve_tx-Frees :
      (size : ℕ) (dir : Direction remapped k) (mode : Mode) (i : Inputs) (d : Driver)
      (wrap : List ℕ) (st : DirStats) (p : Priv)
      → d.fd_open ≡ true
      → Frees dir (serve_tx remapped k size mode i d wrap st p)
  unfolding serve_tx
  serve_tx-Frees size dir udp i d wrap st p h = closed_with-IsFree d wrap st p h
  serve_tx-Frees size dir tcp i d wrap st p h =
      let e = tx_tcp_session k size d i.stored i.calls i.tx_rounds i.stream i.content st p in
      elim (Bool-cases i.accepted) [
        | inl served ↦ rw served (closed_with-IsFree d wrap e.stats e.driver h)
        | inr alone ↦ rw alone (closed_with-IsFree d wrap st p h)
      ]

  if_mapped-Frees :
      (dir : Direction remapped k) (o : Option ℕ) (go : Option Left) (stop : Left)
      → Frees dir go
      → IsFree stop
      → Frees dir (if_mapped remapped k o go stop)
  if_mapped-Frees dir none go stop h h' = h'
  if_mapped-Frees dir (some map) go stop h h' = h

  task-Frees :
      (dir : Direction remapped k) (i : Inputs) (d : Driver) (wrap : List ℕ) (st : DirStats)
      (p : Priv)
      → d.fd_open ≡ true
      → Frees dir (task remapped k dir i d wrap st p)
  unfolding task rx_task tx_task
  task-Frees (only_rx mode) i d wrap st p h =
      let (o, q) = driver_rx_mmap remapped k d p in
      let st' = record st { buf_size = d.rx_buf_size } in
      if_mapped-Frees (only_rx mode) o (serve_rx remapped k mode i d wrap st' q)
        (closed_with d wrap st q) (serve_rx-Frees mode i d wrap st' q h)
        (closed_with-IsFree d wrap st q h)
  task-Frees (only_tx mode limited samples) i d wrap st p h =
      let size = effective_size limited samples d.block_size d.tx_buf_size in
      let (o, q) = driver_tx_mmap remapped k size d p in
      let st' = record st { buf_size = size } in
      if_mapped-Frees (only_tx mode limited samples) o
        (serve_tx remapped k size mode i d wrap st' q) (closed_with d wrap st q)
        (serve_tx-Frees size (only_tx mode limited samples) mode i d wrap st' q h)
        (closed_with-IsFree d wrap st q h)

  -- All sessions are served.
  abbrev pub Serves : Direction remapped k → ℕ → Option (ℕ × Left) → Type 0
  Serves dir n none = dir ≡ only_rx udp
  Serves dir n (some (m, l)) = (m ≡ n) × IsFree l

  next-Serves :
      (dir : Direction remapped k) (n : ℕ) (o : Option Left) (go : Left → Option (ℕ × Left))
      → Frees dir o
      → ((l : Left) → IsFree l → Serves dir n (go l))
      → Serves dir (suc n) (next remapped k o go)
  next-Serves dir n none go h more = h
  next-Serves dir n (some t) go h more = counted (go l) (more l (closed_again-IsFree t h))
    where
      l : Left
      l = closed_with t.driver t.wrap t.stats t.device

      counted :
          (r : Option (ℕ × Left))
          → Serves dir n r
          → Serves dir (suc n) (Option.map (λ (r : ℕ × Left). (suc r.0, r.1)) r)
      counted none s = s
      counted (some (m, l)) s = (ap suc s.0, s.1)

  -- When the device is free at the start and the sizes can be read, the loop of `main` for one
  -- direction serves every session, whatever becomes of the maps, the clients, the blocks and the
  -- sockets: no session ends with the device still held, so the next open never finds it busy. Only
  -- the receiver over UDP may stop, by an overrun of its wrap buffer.
  pub main_loop-Serves :
      (dir : Direction remapped k) (is : List Inputs) (l : Left)
      → IsFree l
      → All (λ (i : Inputs). i.stored ≡ true) is
      → Serves dir (length is) (main_loop remapped k dir is l)
  unfolding main_loop
  main_loop-Serves dir [] l h a = (refl, h)
  main_loop-Serves dir (i ∷ is) l h a =
      let (opened, d, p) =
        driver_open k i.stored i.stored i.stored i.hw_wr i.now l.driver l.device in
      let e = driver_open_lem k i.stored i.stored i.stored i.hw_wr i.now l.driver l.device in
      rw (opens e.0) (
        next-Serves dir (length is) (task remapped k dir i d l.wrap l.stats p)
          (main_loop remapped k dir is) (task-Frees dir i d l.wrap l.stats p (e.1 ∙ opens e.0))
          (λ t free. main_loop-Serves dir is t free a.1))
    where
      opens :
          {b : Bool}
          → b ≡ ((l.device.in_use == 0) && (i.stored && (i.stored && i.stored)))
          → b ≡ true
      opens e = e ∙ ground (arith, h.free, a.0)
