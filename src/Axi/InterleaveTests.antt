-- ===== src/Axi/InterleaveTests.antt =====
-- A read that the timer interrupts, at a concrete state.
use zyndra.Base.{ℕ, ◌≡◌, refl, arith, true, false, List, [], ◌∷◌, Option, none, some}
use zyndra.Ring.{ringbuf_used}
use zyndra.Axi.State.{Priv}
use zyndra.Axi.Timer.{timer, accept_blocks}
use zyndra.Axi.Read.{ReadCall, read}
use zyndra.Axi.Rx.Interleave.{
  testing, done, interleave, timers, before_first, after_first, accesses,
}
use zyndra.Axi.Rx.Interleave.Order.{SameButOrder}
use zyndra.Axi.Rx.Interleave.Atomic.{interleave-read}

-- A mapped RX ring of four blocks of 4 bytes, of which one is counted.
abbrev counted : Priv
counted = record {
  txbuf_phys = 0;
  txbuf_size = 0;
  txbuf_size_max = 64;
  tx_wr_ptr = 0;
  rxbuf_phys = 64;
  rxbuf_size = 16;
  rxbuf_size_max = 64;
  rd_ptr = 0;
  in_use = 1;
  closing = false;
  blocks_ready = 1;
  timer_wr_ptr = 4;
  open_time = 0;
  last_read_time = 0;
  total_bytes_written = 0;
  prev_wr_ptr = 0;
  buf_used_peak = 0;
  read_count = 0;
  overrun_bytes = 0;
  effects = [];
}

abbrev call : ReadCall
call = record { count = 12; wr_overrun = 9; wr_now = 13; now = 5; copied = true }

-- A callback before the overrun test, and two in the middle of the read.
abbrev schedule : List (Option ℕ)
schedule =
    some 8
    ∷ none
    ∷ none
    ∷ some 9
    ∷ none
    ∷ none
    ∷ some 13
    ∷ none
    ∷ none
    ∷ none
    ∷ none
    ∷ none
    ∷ none
    ∷ none
    ∷ []

ready : (timers 4 (before_first schedule) counted).blocks_ready ≡ 2
unfolding timers before_first timer accept_blocks ringbuf_used
ready = refl

interleave-read_example :
    ((interleave 4 call schedule (testing, counted)).0
      ≡ done (read 4 call (timers 4 (before_first schedule) counted)).0)
    × SameButOrder
        (timers 4 (after_first schedule) (read 4 call (timers 4 (before_first schedule) counted)).1)
        (interleave 4 call schedule (testing, counted)).1
unfolding accesses
interleave-read_example =
    interleave-read 4 call (omega arith) schedule counted (omega arith) (omega arith) refl
      (rw ready refl)
