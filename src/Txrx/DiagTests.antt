-- ===== src/Txrx/DiagTests.antt =====
-- The theorems on the diagnostics, at concrete inputs.
use zyndra.Base.{List, ℕ, ◌+◌, ◌*◌, ◌%◌, ◌^◌, ◌≡◌, refl, arith, true, false, [], ◌∷◌, some, All}
use zyndra.Axi.State.{Priv}
use zyndra.Axi.Write.{WriteCall, write, has_room}
use zyndra.Txrx.Driver.{Driver, driver_tx_put_block}
use zyndra.Txrx.Prbs.{prbs_len, PrbsIq, Luts, prbs_init, prbs_fill_block, fill_loop, copy}
use zyndra.Txrx.Diag.{PrbsRun, Got, prbs_start, prbs_run}
use zyndra.Txrx.Diag.Clean.{IsQuiet, IsClean, prbs_run-IsClean}
use zyndra.Txrx.Diag.Feed.{Stored, Fed, fed, fresh_feeder, refill, tx_feeder_thread}
use zyndra.Txrx.Cli.{diag_prbs}
use zyndra.Txrx.Diag.Loop.{prbs_loop-IsClean}
use zyndra.Txrx.Diag.Bench.{membench, loops_run, whole_blocks, repeated, Benched, membench-Benched}
use zyndra.Txrx.Diag.Stands.{Stands, main_diagnostic-Stands}
use zyndra.Txrx.Diag.Dispatch.{
  Answers, Event, gets, puts, returns, device_opened, device_closed, rx_mapped, rx_unmapped,
  tx_mapped, tx_unmapped, feeder_started, run_loop, run_feeding, run_diagnostic, main_diagnostic,
}
use zyndra.Receiver.{bytes_at}
use zyndra.Ring.{ringbuf_used}
use zyndra.Axi.Probe.{fresh_priv}

abbrev silence : PrbsIq
silence = record { i = 0; q = 0 }

abbrev zero_tables : Luts
zero_tables = record { lut = λ k. silence; pos = λ k. 0 }

abbrev block_from : ℕ → Got
block_from p = record {
  answer = record { rd = 0; hw_wr = 8; lost_bytes = 0 };
  block = λ k. (prbs_init zero_tables).lut ((p + k) % prbs_len);
  second_over = true;
}

prbs_run-IsClean_example :
    let r =
      prbs_run (prbs_init zero_tables) 8 64 (block_from 65534 ∷ block_from 1 ∷ []) prbs_start in
    IsClean zero_tables 8 64 3 r.0 × All IsQuiet r.1
prbs_run-IsClean_example =
    prbs_run-IsClean zero_tables 8 64 65534 (block_from 65534) (block_from 1 ∷ []) (omega arith)
      (omega arith) ((λ k h. refl), ((λ k h. refl), tt))

-- A block whose second sample is wrong.
abbrev wrong_block : Got
wrong_block = record {
  answer = record { rd = 0; hw_wr = 8; lost_bytes = 0 };
  block = λ k. record { i = k; q = 0 };
  second_over = false;
}

abbrev locked : PrbsRun
locked = record prbs_start { pos = some 7 }

abbrev device : Driver
device = record { fd_open = true; rx_buf_size = 64; tx_buf_size = 64; block_size = 8 }

abbrev opened : Priv
unfolding fresh_priv
opened = record (fresh_priv (record { start = 0; size = 64 }) (record { start = 64; size = 64 })) {
  txbuf_size = 64;
  rxbuf_size = 64;
  in_use = 1;
}

abbrev one_call : WriteCall
one_call = record { count = 4; copied = true; wr = 0; tx_rd = 0 }

abbrev first_stored : Stored
first_stored = record {
  at = 0;
  samples = (prbs_init zero_tables).lut 0 ∷ (prbs_init zero_tables).lut 1 ∷ [];
}

abbrev sent_once : Fed
sent_once =
    tx_feeder_thread (prbs_init zero_tables).lut 8 64 true device (one_call ∷ []) fresh_feeder
      opened

abbrev after_one : Priv
unfolding driver_tx_put_block
after_one = (driver_tx_put_block 8 8 one_call device opened).1

sent : sent_once ≡ fed (first_stored ∷ []) (record { wr = 8; prbs_p = 2; bytes = 8 }) after_one
unfolding tx_feeder_thread refill prbs_fill_block fill_loop copy driver_tx_put_block write has_room
    ringbuf_used fresh_priv
sent = refl

prbs_loop-IsClean_example :
    let r = prbs_run (prbs_init zero_tables) 8 64 (block_from 0 ∷ []) prbs_start in
    (r.0.errors ≡ 0) × (r.0.total_errors ≡ 0) × All IsQuiet r.1
prbs_loop-IsClean_example =
    prbs_loop-IsClean zero_tables 8 64 64 device (one_call ∷ []) fresh_feeder
      (record { wr = 8; prbs_p = 2; bytes = 8 }) opened after_one (first_stored ∷ []) (block_from 0)
      [] (omega arith) (omega arith) sent (refl, tt)

membench-Benched_example :
    Benched
      (repeated (loops_run 2) (bytes_at (λ a. a) 0 (whole_blocks 65540)))
      (loops_run 2 * 65540 % 2 ^ 64)
      (membench (λ a. a) 65540 2)
membench-Benched_example = membench-Benched (λ a. a) 65540 2 (omega arith)

abbrev all_well : Answers
all_well = record { opens = true; maps_rx = true; maps_tx = true; allocates = true }

-- A write of the feeder and a read succeed, and then a read fails.
abbrev happens : List Event
happens = puts true ∷ gets true ∷ gets false ∷ []

main_diagnostic-Stands_example :
    Stands diag_prbs all_well happens (main_diagnostic diag_prbs all_well happens)
main_diagnostic-Stands_example = main_diagnostic-Stands diag_prbs all_well happens

-- The feeder's thread is left over.
feeder_left :
    main_diagnostic diag_prbs all_well happens
    ≡ returns 0 (
        device_opened ∷ rx_mapped ∷ tx_mapped ∷ feeder_started ∷ tx_unmapped ∷ rx_unmapped
        ∷ device_closed ∷ [])
unfolding main_diagnostic run_diagnostic run_feeding run_loop
feeder_left = refl
