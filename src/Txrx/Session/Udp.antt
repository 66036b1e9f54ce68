-- ===== src/Txrx/Session/Udp.antt =====
-- A session whose RX direction is UDP.
use zyndra.Base.{ℕ, ◌≡◌, arith, Bool, true, false}
use zyndra.Txrx.Session.{
  udp, RxPc, rx_accepted, rx_dropping, Shared, start, RxStep, TxStep, by_rx, by_tx, Reach, here,
  next,
}
use zyndra.Txrx.Session.{
  rx_mmap, rx_mmap_fails, rx_accept, rx_accept_fails, rx_signal, rx_drop, rx_dropped, rx_udp_begin,
  rx_stream, rx_drop_fails, rx_stream_fails, rx_end_tcp, rx_end_udp,
}
use zyndra.Txrx.Session.{
  tx_mmap, tx_mmap_fails, tx_accept, tx_accept_fails, tx_woken, tx_prefill, tx_prefill_fails,
  tx_prefilled, tx_enable, tx_enable_fails, tx_stream, tx_stream_fails,
}
use zyndra.Txrx.Session.Order.{past_wait}

-- RX never comes to the code that sets the flag.
abbrev signals : RxPc → Bool
signals rx_accepted = true
signals (rx_dropping k) = true
signals pc = false

record IsSilent (s : Shared) : Type 0 where
  quiet : s.active ≡ false
  off_path : signals s.rx ≡ false
  waiting : past_wait s.tx ≡ false
  disabled : s.enabled ≡ false

Rx-IsSilent : {blocks : ℕ} {s t : Shared} → RxStep udp blocks s t → IsSilent s → IsSilent t
Rx-IsSilent (rx_mmap e0) v = ground arith
Rx-IsSilent (rx_mmap_fails e0) v = ground arith
Rx-IsSilent (rx_accept e0 e1) v = ground arith
Rx-IsSilent (rx_accept_fails e0 e1) v = ground arith
Rx-IsSilent (rx_signal e0) v = ground arith
Rx-IsSilent (rx_drop k e0 e1) v = ground arith
Rx-IsSilent (rx_dropped e0) v = ground arith
Rx-IsSilent (rx_udp_begin e0 e1) v = ground arith
Rx-IsSilent (rx_stream e0 e1) v = ground arith
Rx-IsSilent (rx_drop_fails k e0) v = ground arith
Rx-IsSilent (rx_stream_fails e0) v = ground arith
Rx-IsSilent (rx_end_tcp e0 e1) v = ground arith
Rx-IsSilent (rx_end_udp e0 e1) v = ground arith

Tx-IsSilent : {blocks : ℕ} {s t : Shared} → TxStep blocks s t → IsSilent s → IsSilent t
Tx-IsSilent (tx_mmap e0) v = ground arith
Tx-IsSilent (tx_mmap_fails e0) v = ground arith
Tx-IsSilent (tx_accept e0) v = ground arith
Tx-IsSilent (tx_accept_fails e0) v = ground arith
Tx-IsSilent (tx_woken e0 e1) v = ground arith
Tx-IsSilent (tx_prefill k e0) v = ground arith
Tx-IsSilent (tx_prefill_fails k e0) v = ground arith
Tx-IsSilent (tx_prefilled e0) v = ground arith
Tx-IsSilent (tx_enable e0) v = ground arith
Tx-IsSilent (tx_enable_fails e0) v = ground arith
Tx-IsSilent (tx_stream e0) v = ground arith
Tx-IsSilent (tx_stream_fails e0) v = ground arith

Reach-IsSilent : {blocks : ℕ} {s : Shared} → Reach udp blocks start s → IsSilent s
Reach-IsSilent here = ground arith
Reach-IsSilent (next r (by_rx st)) = Rx-IsSilent st (Reach-IsSilent r)
Reach-IsSilent (next r (by_tx st)) = Tx-IsSilent st (Reach-IsSilent r)

-- With RX over UDP and TX over TCP, no interleaving ever lets TX past its wait or enables the FPGA.
pub udp-never-enables :
    {blocks : ℕ} {s : Shared}
    → Reach udp blocks start s
    → (past_wait s.tx ≡ false) × (s.enabled ≡ false)
udp-never-enables r = let v = Reach-IsSilent r in (v.waiting, v.disabled)
