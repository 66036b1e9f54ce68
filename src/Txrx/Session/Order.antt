-- ===== src/Txrx/Session/Order.antt =====
-- The order in which a session with both directions starts.
use zyndra.Base.{ℕ, ◌+◌, ◌≡◌, arith, Bool, true, false}
use zyndra.Txrx.Session.{
  Mode, RxPc, rx_begin, rx_done, TxPc, tx_begin, tx_prefilling, tx_enabling, tx_streaming, tx_done,
  Shared, start, RxStep, TxStep, by_rx, by_tx, Reach, here, next,
}
use zyndra.Txrx.Session.{
  rx_mmap, rx_mmap_fails, rx_accept, rx_accept_fails, rx_signal, rx_drop, rx_dropped, rx_udp_begin,
  rx_stream, rx_drop_fails, rx_stream_fails, rx_end_tcp, rx_end_udp,
}
use zyndra.Txrx.Session.{
  tx_mmap, tx_mmap_fails, tx_accept, tx_accept_fails, tx_woken, tx_prefill, tx_prefill_fails,
  tx_prefilled, tx_enable, tx_enable_fails, tx_stream, tx_stream_fails,
}

-- TX has been let past the wait for RX.
abbrev pub past_wait : TxPc → Bool
past_wait (tx_prefilling k) = true
past_wait tx_enabling = true
past_wait tx_streaming = true
past_wait pc = false

abbrev pub tx_has_map : TxPc → Bool
tx_has_map tx_begin = false
tx_has_map tx_done = false
tx_has_map pc = true

abbrev pub rx_has_map : RxPc → Bool
rx_has_map rx_begin = false
rx_has_map rx_done = false
rx_has_map pc = true

-- The blocks of silence that TX has still to publish.
abbrev pub IsFilling : ℕ → ℕ → TxPc → Type 0
IsFilling blocks filled (tx_prefilling k) = filled + k ≡ blocks
IsFilling blocks filled tx_enabling = filled ≡ blocks
IsFilling blocks filled tx_streaming = filled ≡ blocks
IsFilling blocks filled tx_done = Unit
IsFilling blocks filled pc = filled ≡ 0

record IsOrdered (blocks : ℕ) (s : Shared) : Type 0 where
  tx_map : tx_has_map s.tx ≡ true → s.tx_mapped_once ≡ true
  rx_map : rx_has_map s.rx ≡ true → s.rx_mapped_once ≡ true
  active_map : s.active ≡ true → s.rx_mapped_once ≡ true
  past : past_wait s.tx ≡ true → s.rx_mapped_once ≡ true
  filling : IsFilling blocks s.filled s.tx
  enabled_rx : s.enabled ≡ true → s.rx_mapped_once ≡ true
  enabled_tx : s.enabled ≡ true → s.tx_mapped_once ≡ true
  enabled_filled : s.enabled ≡ true → s.filled ≡ blocks

Rx-IsOrdered :
    {mode : Mode} {blocks : ℕ} {s t : Shared}
    → RxStep mode blocks s t
    → IsOrdered blocks s
    → IsOrdered blocks t
Rx-IsOrdered (rx_mmap e0) v = ground arith
Rx-IsOrdered (rx_mmap_fails e0) v = ground arith
Rx-IsOrdered (rx_accept e0 e1) v = ground arith
Rx-IsOrdered (rx_accept_fails e0 e1) v = ground arith
Rx-IsOrdered (rx_signal e0) v = ground arith
Rx-IsOrdered (rx_drop k e0 e1) v = ground arith
Rx-IsOrdered (rx_dropped e0) v = ground arith
Rx-IsOrdered (rx_udp_begin e0 e1) v = ground arith
Rx-IsOrdered (rx_stream e0 e1) v = ground arith
Rx-IsOrdered (rx_drop_fails k e0) v = ground arith
Rx-IsOrdered (rx_stream_fails e0) v = ground arith
Rx-IsOrdered (rx_end_tcp e0 e1) v = ground arith
Rx-IsOrdered (rx_end_udp e0 e1) v = ground arith

Tx-IsOrdered :
    {blocks : ℕ} {s t : Shared} → TxStep blocks s t → IsOrdered blocks s → IsOrdered blocks t
Tx-IsOrdered (tx_mmap e0) v = ground arith
Tx-IsOrdered (tx_mmap_fails e0) v = ground arith
Tx-IsOrdered (tx_accept e0) v = ground arith
Tx-IsOrdered (tx_accept_fails e0) v = ground arith
Tx-IsOrdered (tx_woken e0 e1) v = ground arith
Tx-IsOrdered (tx_prefill k e0) v = ground arith
Tx-IsOrdered (tx_prefill_fails k e0) v = ground arith
Tx-IsOrdered (tx_prefilled e0) v = ground arith
Tx-IsOrdered (tx_enable e0) v = ground arith
Tx-IsOrdered (tx_enable_fails e0) v = ground arith
Tx-IsOrdered (tx_stream e0) v = ground arith
Tx-IsOrdered (tx_stream_fails e0) v = ground arith

Reach-IsOrdered :
    {mode : Mode} {blocks : ℕ} {s : Shared} → Reach mode blocks start s → IsOrdered blocks s
Reach-IsOrdered here = ground arith
Reach-IsOrdered (next r (by_rx st)) = Rx-IsOrdered st (Reach-IsOrdered r)
Reach-IsOrdered (next r (by_tx st)) = Tx-IsOrdered st (Reach-IsOrdered r)

-- In every interleaving, when the FPGA is enabled both buffers have been mapped and TX has published
-- all its blocks of silence.
pub enabled-after-both :
    {mode : Mode} {blocks : ℕ} {s : Shared}
    → Reach mode blocks start s
    → s.enabled ≡ true
    → (s.rx_mapped_once ≡ true) × (s.tx_mapped_once ≡ true) × (s.filled ≡ blocks)
enabled-after-both r on =
    let v = Reach-IsOrdered r in (v.enabled_rx on, v.enabled_tx on, v.enabled_filled on)
