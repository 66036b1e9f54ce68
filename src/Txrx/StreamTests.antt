-- ===== src/Txrx/StreamTests.antt =====
-- The theorems on the data paths and on the loop of `main`, at concrete inputs.
use zyndra.Base.{some, ℕ, ◌+◌, ◌*◌, refl, arith, true, false, [], ◌∷◌, concat, drop}
use zyndra.Axi.State.{Priv, ret}
use zyndra.Axi.Read.{ReadCall}
use zyndra.Axi.Write.{WriteCall}
use zyndra.Axi.Probe.{fresh_priv}
use zyndra.Txrx.Driver.{Driver}
use zyndra.Txrx.Net.Tcp.{moved, interrupted}
use zyndra.Txrx.Session.{tcp, prefill_blocks}
use zyndra.Txrx.Status.{DirStats}
use zyndra.Txrx.Rx.{rx_loop, rx_tcp_session}
use zyndra.Txrx.Rx.Stream.{IsFront, blocks_read, started, rx_tcp_session-IsFront}
use zyndra.Txrx.Rx.Live.{Live, goes_on, ends, ticked, still, rx_loop-stream}
use zyndra.Txrx.Rx.Live.{opened as live_device}
use zyndra.Axi.Rx.Run.{enabled}
use zyndra.Axi.Timer.{timer, accept_blocks}
use zyndra.Axi.Control.{enable_fpga}
use zyndra.Ring.{ringbuf_used}
use zyndra.Receiver.{bytes_at}
use zyndra.Txrx.Tx.{effective_size, tx_tcp_session}
use zyndra.Txrx.Tx.Stream.{Carries, after_silence, tx_tcp_session-Carries}
use zyndra.Txrx.Main.{Inputs, Left, only_rx, main_loop}
use zyndra.Txrx.Main.Reopen.{Serves, main_loop-Serves}
use zyndra.Txrx.Rx
use zyndra.Txrx.Tx

abbrev idle : Priv
unfolding fresh_priv
idle = fresh_priv (record { start = 0; size = 64 }) (record { start = 64; size = 64 })

-- Open, mapped, and with two blocks ready.
abbrev ready : Priv
ready = record idle { txbuf_size = 64; rxbuf_size = 64; in_use = 1; blocks_ready = 2 }

abbrev no_stats : DirStats
no_stats = record { bytes = 0; overrun = 0; buf_used = 0; buf_size = 0 }

abbrev device : ℕ → Driver
device b = record { fd_open = true; rx_buf_size = 64; tx_buf_size = 64; block_size = b }

abbrev a_read : ReadCall
a_read = record { count = 12; wr_overrun = 4; wr_now = 4; now = 9; copied = true }

abbrev a_round : Rx.Round
a_round = record {
  ticks = 4 ∷ [];
  call = a_read;
  map = λ a. a + 100;
  answers = moved 1 ∷ interrupted ∷ moved 1 ∷ [];
  delivered = some 64;
}

rx_tcp_session-IsFront_example :
    IsFront 2
      (device 2)
      (rx_tcp_session 2 (device 2) true true (a_round ∷ a_round ∷ []) no_stats ready).taken
      (concat (
        drop (prefill_blocks 2) (
          blocks_read 2
            (device 2)
            (a_round ∷ a_round ∷ [])
            (started 2 (device 2) true true ready))))
rx_tcp_session-IsFront_example =
    rx_tcp_session-IsFront 2 (device 2) true true (a_round ∷ a_round ∷ []) no_stats ready

abbrev a_call : WriteCall
a_call = record { count = 4; copied = true; wr = 0; tx_rd = 0 }

abbrev tx_round : Tx.Round
tx_round = record { call = a_call; answers = moved 3 ∷ moved 1 ∷ [] }

tx_tcp_session-Carries_example :
    Carries 4 64
      (device 4)
      0
      (after_silence 4 64 (device 4) (prefill_blocks 4) (5 ∷ 6 ∷ 7 ∷ 8 ∷ 9 ∷ []))
      (tx_tcp_session 4 64
        (device 4)
        true
        (a_call ∷ a_call ∷ [])
        (tx_round ∷ [])
        (5 ∷ 6 ∷ 7 ∷ 8 ∷ 9 ∷ [])
        (λ a. 0)
        no_stats
        ready).blocks
tx_tcp_session-Carries_example =
    tx_tcp_session-Carries 4 64 (device 4) true (a_call ∷ a_call ∷ []) (tx_round ∷ [])
      (5 ∷ 6 ∷ 7 ∷ 8 ∷ 9 ∷ []) (λ a. 0) no_stats ready (omega arith)

abbrev an_input : Inputs
an_input = record {
  hw_wr = 0;
  now = 5;
  accepted = true;
  stored = true;
  rx_rounds = a_round ∷ [];
  calls = [];
  tx_rounds = [];
  stream = [];
  content = λ a. 0;
}

abbrev at_start : Left
at_start = record {
  wrap = [];
  stats = no_stats;
  driver = record { fd_open = false; rx_buf_size = 0; tx_buf_size = 0; block_size = 0 };
  device = idle;
}

main_loop-Serves_example :
    Serves
      (λ pfn len. ret 0)
      2
      (only_rx tcp)
      2
      (main_loop (λ pfn len. ret 0) 2 (only_rx tcp) (an_input ∷ an_input ∷ []) at_start)
unfolding idle
main_loop-Serves_example =
    main_loop-Serves (λ pfn len. ret 0) 2 (only_rx tcp) (an_input ∷ an_input ∷ []) at_start
      (record { free = refl; shut = refl }) (refl, (refl, tt))

-- A ring of four blocks of four bytes, and a stream that counts up from 50.
abbrev live_ring : Priv
live_ring = record idle { txbuf_size = 16; rxbuf_size = 16; in_use = 1 }

abbrev live_round : Rx.Round
live_round = record {
  ticks = 9 ∷ [];
  call = record { count = 12; wr_overrun = 9; wr_now = 9; now = 5; copied = true };
  map = λ a. a + 50;
  answers = moved 3 ∷ [];
  delivered = some 64;
}

one_round-Live : Live 4 4 (λ i. i + 50) (enabled 4 4 live_ring) (live_round ∷ [])
unfolding idle timer accept_blocks ringbuf_used enable_fpga
one_round-Live =
    goes_on live_round (ticked (enabled 4 4 live_ring) 9 (omega arith) (omega arith) (still _)) refl
      (omega arith) refl refl (omega arith) (λ i lt le. omega arith) (ends _)

rx_loop-stream_example :
    (k : ℕ) × IsFront 4
      (live_device 4 4 64 64)
      (rx_loop 4
        (live_device 4 4 64 64)
        0
        (live_round ∷ [])
        no_stats
        (enabled 4 4 live_ring).driver).taken
      (drop (0 * 4) (bytes_at (λ i. i + 50) 0 (k * 4)))
unfolding idle
rx_loop-stream_example =
    rx_loop-stream 4 4 64 64 (λ i. i + 50) 0 (live_round ∷ []) no_stats live_ring (omega arith)
      (omega arith) (omega arith) refl one_round-Live
