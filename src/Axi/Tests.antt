-- ===== src/Axi/Tests.antt =====
-- The driver's theorems at concrete states, and runs of its operations.
use zyndra.Base.{
  concat, ℕ, ◌+◌, ◌-◌, ◌*◌, ◌%◌, ◌≤◌, ◌<◌, ◌≡◌, refl, arith, true, false, List, [], ◌∷◌, ltb,
}
use zyndra.Ring.{ringbuf_used}
use zyndra.Axi.State.{Priv, Outcome, ret, fail, ebusy}
use zyndra.Axi.Timer.{timer, accept_blocks}
use zyndra.Axi.Read.{ReadCall, read, deliver, check_overrun, take_block, advance_rd}
use zyndra.Axi.Write.{WriteCall, write, flush_ranges, has_room}
use zyndra.Axi.Control.{open_device, release, Vma, enable_fpga}
use zyndra.Axi.Rx.Inv.{RxInv}
use zyndra.Axi.Rx.Overrun.{skipped}
use zyndra.Axi.Rx.Serve.{served, read-serves}
use zyndra.Axi.Rx.Run.{
  Receiver, Reach, produce, tick, here, next, IsSynced, enabled, Reach-IsSynced,
}
use zyndra.Axi.Rx.Content.{Streams, begins, passes, takes, Streams-concat}
use zyndra.Receiver.{bytes_at}
use zyndra.Axi.Rx.Stall.{offset_of, stalled-rereads}
use zyndra.Axi.Tx.Flush.{in_ranges, in_ranges-flush_ranges}
use zyndra.Axi.Tx.Room.{write-room}
use zyndra.Axi.Tx.Full.{full_ring_looks_empty}
use zyndra.Axi.Api.{Call, mmap_call, read_call, step}
use zyndra.Axi.Api.Sizes.{IsMapped, SameMemory, step-IsMapped}
use zyndra.Axi.Api.Ctrl.{ctrl_of, run, open-idle}
use zyndra.Axi.Api.Single.{open-exclusive}

-- A closed device with 64 bytes for each direction.
abbrev closed : Priv
closed = record {
  txbuf_phys = 0x1000;
  txbuf_size = 0;
  txbuf_size_max = 64;
  tx_wr_ptr = 0;
  rxbuf_phys = 0x2000;
  rxbuf_size = 0;
  rxbuf_size_max = 64;
  rd_ptr = 0;
  in_use = 0;
  closing = false;
  blocks_ready = 0;
  timer_wr_ptr = 0;
  open_time = 0;
  last_read_time = 0;
  total_bytes_written = 0;
  prev_wr_ptr = 0;
  buf_used_peak = 0;
  read_count = 0;
  overrun_bytes = 0;
  effects = [];
}

-- Open, with a ring of 4 blocks of 4 bytes each way.
abbrev mapped : Priv
mapped = record closed { in_use = 1; rxbuf_size = 16; txbuf_size = 16 }

-- Two blocks wait.
abbrev two_ready : Priv
two_ready = record mapped { timer_wr_ptr = 8; blocks_ready = 2 }

two_ready-RxInv : RxInv 4 4 0 2 two_ready
two_ready-RxInv = omega arith

abbrev call : ReadCall
call = record { count = 12; wr_overrun = 9; wr_now = 9; now = 5; copied = true }

abbrev no_remap : ℕ → ℕ → Outcome ℕ
no_remap phys size = ret 0

timer_counts : (timer 4 1 two_ready).blocks_ready ≡ 4
unfolding timer accept_blocks ringbuf_used
timer_counts = refl

read-serves_example :
    ((read 4 call two_ready).0 ≡ ret (served 4 4 0 2 call))
    × RxInv 4 4 (0 + skipped 4 4 0 2 9 + 1) 2 (read 4 call two_ready).1
    × (0 + skipped 4 4 0 2 9 < 2)
    × ((0 + skipped 4 4 0 2 9) % 4 * 4 + 4 ≤ 4 * 4)
read-serves_example =
    read-serves call two_ready-RxInv (omega arith) (omega arith) refl (omega arith) refl

read_first : (read 4 call two_ready).0 ≡ ret (record { rd = 0; hw_wr = 9; lost_bytes = 0 })
unfolding read deliver check_overrun take_block advance_rd ringbuf_used
read_first = refl

abbrev sync_two : Receiver
sync_two = record { written = 9; counted = 2; passed = 0; driver = two_ready }

sync_two-IsSynced : IsSynced 4 4 sync_two
sync_two-IsSynced = omega arith

-- 9 bytes arrive, the timer counts two blocks, a call takes one.
abbrev after_tick : Receiver
after_tick = record {
  written = 9;
  counted = 2;
  passed = 0;
  driver = timer 4 9 (enable_fpga mapped);
}

Reach-tick : Reach 4 4 (enabled 4 4 mapped) after_tick
Reach-tick = next (next here (produce _ 9 (omega arith))) (tick _ (omega arith))

Reach-IsSynced_example : IsSynced 4 4 after_tick
Reach-IsSynced_example =
    Reach-IsSynced 4 4 mapped (omega arith) (omega arith) (omega arith) refl Reach-tick

-- The stream counts up from 50, and the ring holds its first 9 bytes.
first_block : (read 4 call after_tick.driver).0 ≡ ret (record { rd = 0; hw_wr = 9; lost_bytes = 0 })
unfolding read deliver check_overrun take_block advance_rd ringbuf_used timer accept_blocks
    enable_fpga
first_block = refl

abbrev block_taken : Receiver
block_taken = record after_tick { passed = 1; driver = (read 4 call after_tick.driver).1 }

taken-Streams : Streams 4 4 (λ i. i + 50) (bytes_at (λ a. a + 50) 0 4 ∷ []) block_taken
unfolding timer accept_blocks ringbuf_used enable_fpga
taken-Streams =
    takes call (λ a. a + 50) (record { rd = 0; hw_wr = 9; lost_bytes = 0 })
      (passes
        (passes (begins mapped (omega arith) (omega arith) (omega arith) refl)
          (produce _ 9 (omega arith)) refl)
        (tick _ (omega arith)) refl)
      refl (omega arith) refl (omega arith) refl (omega arith) (λ i lt le. omega arith) first_block

Streams-concat_example :
    IsSynced 4 4 block_taken
    × (concat (bytes_at (λ a. a + 50) 0 4 ∷ []) ≡ bytes_at (λ i. i + 50) 0 (1 * 4))
Streams-concat_example = Streams-concat 4 4 taken-Streams

-- Nine blocks wait in a ring of four.
abbrev stalled : Priv
stalled = record mapped { timer_wr_ptr = 4; blocks_ready = 9 }

stalled-RxInv : RxInv 4 4 0 9 stalled
stalled-RxInv = omega arith

stalled-rereads_example :
    offset_of (read 4 call (read 4 call stalled).1).0 ≡ offset_of (read 4 call stalled).0
stalled-rereads_example =
    stalled-rereads call call stalled-RxInv (omega arith) refl (omega arith) refl (omega arith)
      (omega arith) refl refl

abbrev tx_call : WriteCall
tx_call = record { count = 4; copied = true; wr = 12; tx_rd = 0 }

in_ranges-flush_ranges_example :
    in_ranges 14 (flush_ranges 16 12 4) ≡ ltb (ringbuf_used 12 14 16) (ringbuf_used 12 4 16)
in_ranges-flush_ranges_example =
    in_ranges-flush_ranges 16 12 4 (omega arith) (omega arith) (omega arith) 14 (omega arith)

write_runs : (write 4 tx_call mapped).0 ≡ ret 4
unfolding write has_room ringbuf_used
write_runs = refl

write-room_example : ringbuf_used 0 12 16 ≤ ringbuf_used 0 13 16
unfolding ringbuf_used
write-room_example =
    write-room 4 tx_call mapped (omega arith) (omega arith) (omega arith) write_runs 13
      (omega arith) (omega arith)

full_ring_looks_empty_example :
    (has_room 4 ((5 + (16 - 4)) % 16) 5 16 ≡ true)
    × (has_room 4 (((5 + (16 - 4)) % 16 + 4) % 16) 5 16 ≡ true)
    × (ringbuf_used 5 (((5 + (16 - 4)) % 16 + 4) % 16) 16 ≡ 0)
full_ring_looks_empty_example =
    full_ring_looks_empty 4 5 16 (omega arith) (omega arith) (omega arith) (omega arith)

mapped-IsMapped : IsMapped 4 mapped
mapped-IsMapped = omega arith

abbrev rx_area : Vma
rx_area = record { size = 32; pgoff = 0; writable = false }

step-IsMapped_example :
    IsMapped 4 (step no_remap 4 (mmap_call rx_area) mapped)
    × SameMemory mapped (step no_remap 4 (mmap_call rx_area) mapped)
step-IsMapped_example =
    step-IsMapped no_remap 4 (mmap_call rx_area) mapped mapped-IsMapped (omega arith)

abbrev map_then_read : List Call
map_then_read = mmap_call rx_area ∷ read_call call ∷ []

open-idle_example : ctrl_of (run no_remap 4 map_then_read (open_device 7 1 closed).1).effects ≡ 0
open-idle_example = open-idle no_remap 4 7 1 map_then_read closed refl (refl, (refl, tt))

open-exclusive_example :
    let q = run no_remap 4 map_then_read (open_device 7 1 closed).1 in
    (open_device 8 2 q ≡ (fail ebusy, q)) × ((open_device 8 2 (release q)).0 ≡ ret 0)
open-exclusive_example =
    open-exclusive no_remap 4 closed 7 1 8 2 map_then_read refl (refl, (refl, tt))
