-- ===== src/Txrx/Session/Lost.antt =====
-- A TX thread whose RX thread has ended before it looked at the flag.
use zyndra.Base.{ℕ, ◌≡◌, refl, arith, true, false}
use zyndra.Txrx.Session.{
  Mode, rx_done, tx_accepted, Shared, start, RxStep, TxStep, Step, by_rx, by_tx, Reach, here, next,
}
use zyndra.Txrx.Session.{
  rx_mmap, rx_mmap_fails, rx_accept, rx_accept_fails, rx_signal, rx_drop, rx_dropped, rx_udp_begin,
  rx_stream, rx_drop_fails, rx_stream_fails, rx_end_tcp, rx_end_udp,
}
use zyndra.Txrx.Session.{
  tx_mmap, tx_mmap_fails, tx_accept, tx_accept_fails, tx_woken, tx_prefill, tx_prefill_fails,
  tx_prefilled, tx_enable, tx_enable_fails, tx_stream, tx_stream_fails,
}

-- RX has ended with the flag down, and TX waits for the flag.
pub record IsStranded (s : Shared) : Type 0 where
  pub ended : s.rx ≡ rx_done
  pub down : s.active ≡ false
  pub waits : s.tx ≡ tx_accepted

no-RxStep : {mode : Mode} {blocks : ℕ} {s t : Shared} → RxStep mode blocks s t → IsStranded s → ⊥
no-RxStep (rx_mmap e0) v = ground arith
no-RxStep (rx_mmap_fails e0) v = ground arith
no-RxStep (rx_accept e0 e1) v = ground arith
no-RxStep (rx_accept_fails e0 e1) v = ground arith
no-RxStep (rx_signal e0) v = ground arith
no-RxStep (rx_drop k e0 e1) v = ground arith
no-RxStep (rx_dropped e0) v = ground arith
no-RxStep (rx_udp_begin e0 e1) v = ground arith
no-RxStep (rx_stream e0 e1) v = ground arith
no-RxStep (rx_drop_fails k e0) v = ground arith
no-RxStep (rx_stream_fails e0) v = ground arith
no-RxStep (rx_end_tcp e0 e1) v = ground arith
no-RxStep (rx_end_udp e0 e1) v = ground arith

no-TxStep : {blocks : ℕ} {s t : Shared} → TxStep blocks s t → IsStranded s → ⊥
no-TxStep (tx_mmap e0) v = ground arith
no-TxStep (tx_mmap_fails e0) v = ground arith
no-TxStep (tx_accept e0) v = ground arith
no-TxStep (tx_accept_fails e0) v = ground arith
no-TxStep (tx_woken e0 e1) v = ground arith
no-TxStep (tx_prefill k e0) v = ground arith
no-TxStep (tx_prefill_fails k e0) v = ground arith
no-TxStep (tx_prefilled e0) v = ground arith
no-TxStep (tx_enable e0) v = ground arith
no-TxStep (tx_enable_fails e0) v = ground arith
no-TxStep (tx_stream e0) v = ground arith
no-TxStep (tx_stream_fails e0) v = ground arith

-- From a state in which RX has ended and TX waits, no step of either thread is possible, so `main`
-- waits for the TX thread for ever.
pub stranded-stuck :
    {mode : Mode} {blocks : ℕ} {s t : Shared} → IsStranded s → ¬ Step mode blocks s t
stranded-stuck v (by_rx st) = no-RxStep st v
stranded-stuck v (by_tx st) = no-TxStep st v

-- Such a state is reached in either mode: it is enough that RX fails before TX has its client.
pub IsStranded-reachable :
    (mode : Mode) (blocks : ℕ) → (s : Shared) × Reach mode blocks start s × IsStranded s
IsStranded-reachable mode blocks = (
  record {
    rx = rx_done;
    tx = tx_accepted;
    active = false;
    fd_open = false;
    enabled = false;
    rx_mapped_once = false;
    tx_mapped_once = true;
    filled = 0;
  },
  next (next (next here (by_tx (tx_mmap refl))) (by_rx (rx_mmap_fails refl)))
      (by_tx (tx_accept refl)),
  record { ended = refl; down = refl; waits = refl },
)
