-- ===== src/Txrx/Session.antt =====
-- The RX and TX threads of one streaming session with both directions: `rx_task` and `rx_tcp_session`
-- or `rx_send_udp` of rx.c, `tx_task` and `tx_tcp_session` of tx.c, and the flag that they share.
-- A thread's place in its code is a program counter; one step is the code up to the next call that
-- can wait or that the other thread can observe.
pub mod Order
pub mod Udp
pub mod Lost
pub mod Rounds
use zyndra.Base.{add32, sub32, ℕ, zero, suc, ◌+◌, ◌-◌, ◌*◌, ◌/◌, ◌≡◌, Bool, true, false}

-- `TXRX_PREFILL_SAMPLES * SAMPLE_SIZE`
abbrev pub prefill_bytes : ℕ
prefill_bytes = 16384 * 128 * 4

-- The blocks that TX fills with silence before it enables the FPGA, and that RX drops.
unfoldable pub prefill_blocks : ℕ → ℕ
prefill_blocks block_size = sub32 (add32 prefill_bytes block_size) 1 / block_size

pub data Mode : Type 0 where
  tcp udp : Mode

pub data RxPc : Type 0 where
  rx_begin rx_mapped rx_accepted : RxPc
  rx_dropping : ℕ → RxPc
  rx_streaming rx_ending rx_done : RxPc

pub data TxPc : Type 0 where
  tx_begin tx_mapped tx_accepted : TxPc
  tx_prefilling : ℕ → TxPc
  tx_enabling tx_streaming tx_done : TxPc

-- `active` is `rx_session_active`; `fd_open` says whether the device file is still open, since
-- either thread closes it when it ends; `enabled` whether IOCTL_ENABLE has run. The last three
-- record which buffers have been mapped and how many blocks of silence TX has published.
pub record Shared : Type 0 where
  pub rx : RxPc
  pub tx : TxPc
  pub active : Bool
  pub fd_open : Bool
  pub enabled : Bool
  pub rx_mapped_once : Bool
  pub tx_mapped_once : Bool
  pub filled : ℕ

-- `main` sets the flag to false and opens the device before it starts the threads.
abbrev pub start : Shared
start = record {
  rx = rx_begin;
  tx = tx_begin;
  active = false;
  fd_open = true;
  enabled = false;
  rx_mapped_once = false;
  tx_mapped_once = false;
  filled = 0;
}

-- The steps of the RX thread. Calls that can fail have a step for each outcome.
pub data RxStep (mode : Mode) (blocks : ℕ) (s : Shared) : Shared → Type 0 where
  rx_mmap :
      s.rx ≡ rx_begin → RxStep mode blocks s (record s { rx = rx_mapped; rx_mapped_once = true })
  rx_mmap_fails :
      s.rx ≡ rx_begin → RxStep mode blocks s (record s { rx = rx_done; fd_open = false })
  rx_accept : mode ≡ tcp → s.rx ≡ rx_mapped → RxStep mode blocks s (record s { rx = rx_accepted })
  rx_accept_fails :
      mode ≡ tcp
      → s.rx ≡ rx_mapped
      → RxStep mode blocks s (record s { rx = rx_done; fd_open = false })
  rx_signal :
      s.rx ≡ rx_accepted
      → RxStep mode blocks s (record s { rx = rx_dropping blocks; active = true })
  rx_drop :
      (k : ℕ)
      → s.rx ≡ rx_dropping (suc k)
      → s.enabled ≡ true
      → RxStep mode blocks s (record s { rx = rx_dropping k })
  rx_dropped : s.rx ≡ rx_dropping zero → RxStep mode blocks s (record s { rx = rx_streaming })
  rx_udp_begin :
      mode ≡ udp → s.rx ≡ rx_mapped → RxStep mode blocks s (record s { rx = rx_streaming })
  rx_stream : s.rx ≡ rx_streaming → s.enabled ≡ true → RxStep mode blocks s s
  rx_drop_fails :
      (k : ℕ) → s.rx ≡ rx_dropping (suc k) → RxStep mode blocks s (record s { rx = rx_ending })
  rx_stream_fails : s.rx ≡ rx_streaming → RxStep mode blocks s (record s { rx = rx_ending })
  rx_end_tcp :
      mode ≡ tcp
      → s.rx ≡ rx_ending
      → RxStep mode blocks s (record s { rx = rx_done; active = false; fd_open = false })
  rx_end_udp :
      mode ≡ udp
      → s.rx ≡ rx_ending
      → RxStep mode blocks s (record s { rx = rx_done; fd_open = false })

-- The steps of the TX thread, which serves TCP. `cond_wait` returns when the flag is set.
pub data TxStep (blocks : ℕ) (s : Shared) : Shared → Type 0 where
  tx_mmap : s.tx ≡ tx_begin → TxStep blocks s (record s { tx = tx_mapped; tx_mapped_once = true })
  tx_mmap_fails : s.tx ≡ tx_begin → TxStep blocks s (record s { tx = tx_done; fd_open = false })
  tx_accept : s.tx ≡ tx_mapped → TxStep blocks s (record s { tx = tx_accepted })
  tx_accept_fails : s.tx ≡ tx_mapped → TxStep blocks s (record s { tx = tx_done; fd_open = false })
  tx_woken :
      s.tx ≡ tx_accepted
      → s.active ≡ true
      → TxStep blocks s (record s { tx = tx_prefilling blocks })
  tx_prefill :
      (k : ℕ)
      → s.tx ≡ tx_prefilling (suc k)
      → TxStep blocks s (record s { tx = tx_prefilling k; filled = s.filled + 1 })
  tx_prefill_fails :
      (k : ℕ)
      → s.tx ≡ tx_prefilling (suc k)
      → TxStep blocks s (record s { tx = tx_done; fd_open = false })
  tx_prefilled : s.tx ≡ tx_prefilling zero → TxStep blocks s (record s { tx = tx_enabling })
  tx_enable : s.tx ≡ tx_enabling → TxStep blocks s (record s { tx = tx_streaming; enabled = true })
  tx_enable_fails :
      s.tx ≡ tx_enabling → TxStep blocks s (record s { tx = tx_done; fd_open = false })
  tx_stream : s.tx ≡ tx_streaming → TxStep blocks s s
  tx_stream_fails :
      s.tx ≡ tx_streaming → TxStep blocks s (record s { tx = tx_done; fd_open = false })

pub data Step (mode : Mode) (blocks : ℕ) (s : Shared) : Shared → Type 0 where
  by_rx : {t : Shared} → RxStep mode blocks s t → Step mode blocks s t
  by_tx : {t : Shared} → TxStep blocks s t → Step mode blocks s t

pub data Reach (mode : Mode) (blocks : ℕ) (s : Shared) : Shared → Type 0 where
  here : Reach mode blocks s s
  next : {t u : Shared} → Reach mode blocks s t → Step mode blocks t u → Reach mode blocks s u
