-- ===== src/Txrx/Session/Rounds.antt =====
-- The loop of `main` with both threads: session after session, each with a fresh device.
use zyndra.Base.{ℕ, suc, ◌≡◌, arith, Bool, true, false}
use zyndra.Txrx.Session.{
  Mode, tcp, RxPc, rx_done, rx_accepted, rx_dropping, rx_streaming, rx_ending, tx_done, Shared,
  start, RxStep, TxStep, Step, by_rx, by_tx,
}
use zyndra.Txrx.Session.{
  rx_mmap, rx_mmap_fails, rx_accept, rx_accept_fails, rx_signal, rx_drop, rx_dropped, rx_udp_begin,
  rx_stream, rx_drop_fails, rx_stream_fails, rx_end_tcp, rx_end_udp,
}
use zyndra.Txrx.Session.{
  tx_mmap, tx_mmap_fails, tx_accept, tx_accept_fails, tx_woken, tx_prefill, tx_prefill_fails,
  tx_prefilled, tx_enable, tx_enable_fails, tx_stream, tx_stream_fails,
}

-- What `main` and its threads reach, and the sessions that are over. `opens` is a `driver_open`
-- that succeeds; `joins` is the second `pthread_join` with the `driver_close` after it.
pub data Rounds (mode : Mode) (blocks : ℕ) : ℕ → Bool → Shared → Type 0 where
  begins : Rounds mode blocks 0 false (record start { fd_open = false })
  opens :
      {n : ℕ} {s : Shared}
      → Rounds mode blocks n false s
      → s.fd_open ≡ false
      → Rounds mode blocks n true start
  runs :
      {n : ℕ} {s t : Shared}
      → Rounds mode blocks n true s
      → Step mode blocks s t
      → Rounds mode blocks n true t
  joins :
      {n : ℕ} {s : Shared}
      → Rounds mode blocks n true s
      → s.rx ≡ rx_done
      → s.tx ≡ tx_done
      → Rounds mode blocks (suc n) false (record s { fd_open = false })

-- The places where the flag of RX may be up, and those that only TCP reaches.
abbrev is_up : RxPc → Bool
is_up (rx_dropping k) = true
is_up rx_streaming = true
is_up rx_ending = true
is_up pc = false

abbrev needs_tcp : RxPc → Bool
needs_tcp rx_accepted = true
needs_tcp (rx_dropping k) = true
needs_tcp pc = false

record IsTidy (mode : Mode) (s : Shared) : Type 0 where
  up : s.active ≡ true → is_up s.rx ≡ true
  up_tcp : s.active ≡ true → mode ≡ tcp
  place_tcp : needs_tcp s.rx ≡ true → mode ≡ tcp
  closed : s.rx ≡ rx_done → s.fd_open ≡ false

Rx-IsTidy :
    {mode : Mode} {blocks : ℕ} {s t : Shared}
    → RxStep mode blocks s t
    → IsTidy mode s
    → IsTidy mode t
Rx-IsTidy (rx_mmap e0) v = ground arith
Rx-IsTidy (rx_mmap_fails e0) v = ground arith
Rx-IsTidy (rx_accept e0 e1) v = ground arith
Rx-IsTidy (rx_accept_fails e0 e1) v = ground arith
Rx-IsTidy (rx_signal e0) v = ground arith
Rx-IsTidy (rx_drop k e0 e1) v = ground arith
Rx-IsTidy (rx_dropped e0) v = ground arith
Rx-IsTidy (rx_udp_begin e0 e1) v = ground arith
Rx-IsTidy (rx_stream e0 e1) v = ground arith
Rx-IsTidy (rx_drop_fails k e0) v = ground arith
Rx-IsTidy (rx_stream_fails e0) v = ground arith
Rx-IsTidy (rx_end_tcp e0 e1) v = ground arith
Rx-IsTidy (rx_end_udp e0 e1) v = ground arith

Tx-IsTidy :
    {mode : Mode} {blocks : ℕ} {s t : Shared} → TxStep blocks s t → IsTidy mode s → IsTidy mode t
Tx-IsTidy (tx_mmap e0) v = ground arith
Tx-IsTidy (tx_mmap_fails e0) v = ground arith
Tx-IsTidy (tx_accept e0) v = ground arith
Tx-IsTidy (tx_accept_fails e0) v = ground arith
Tx-IsTidy (tx_woken e0 e1) v = ground arith
Tx-IsTidy (tx_prefill k e0) v = ground arith
Tx-IsTidy (tx_prefill_fails k e0) v = ground arith
Tx-IsTidy (tx_prefilled e0) v = ground arith
Tx-IsTidy (tx_enable e0) v = ground arith
Tx-IsTidy (tx_enable_fails e0) v = ground arith
Tx-IsTidy (tx_stream e0) v = ground arith
Tx-IsTidy (tx_stream_fails e0) v = ground arith

Rounds-IsTidy :
    {mode : Mode} {blocks n : ℕ} {s : Shared} → Rounds mode blocks n true s → IsTidy mode s
Rounds-IsTidy (opens r e) = ground arith
Rounds-IsTidy (runs r (by_rx st)) = Rx-IsTidy st (Rounds-IsTidy r)
Rounds-IsTidy (runs r (by_tx st)) = Tx-IsTidy st (Rounds-IsTidy r)

-- In every interleaving, when `main` has joined both threads the device file is already closed, as
-- the comment in `main` says, and RX has taken its flag back, so that the next session starts as
-- the first did.
pub Rounds-joined :
    {mode : Mode} {blocks n : ℕ} {s : Shared}
    → Rounds mode blocks n true s
    → s.rx ≡ rx_done
    → s.tx ≡ tx_done
    → (s.fd_open ≡ false) × (s.active ≡ false)
Rounds-joined r e0 e1 = let v = Rounds-IsTidy r in (v.closed e0, ground (arith, v.up))
