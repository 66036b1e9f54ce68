-- ===== src/Receiver/Tests.antt =====
-- The receiver's theorems at concrete inputs.
use zyndra.Base.{
  All, zero, suc, ◌+◌, ◌*◌, ◌%◌, refl, ◌<◌, ◌≢◌, ◌⊎◌, none, some, true, ℕ, ◌≡◌, arith, List, [],
  ◌∷◌, ◌++◌, length,
}
use zyndra.Txrx.Cli.{split_last_colon}
use zyndra.Receiver.Udp
use zyndra.Receiver.Udp.Order
use zyndra.Receiver.Udp.{udp_batch, transmit_udp}
use zyndra.Receiver.Udp.Given.{given_all, IsFull}
use zyndra.Receiver.Udp.Order.{idle, run_udp-accepted}
use zyndra.Receiver.Reconnect.{lose_client, transmit-lose_client}
use zyndra.Receiver.Setup.{System, setup, read_reserved_mem, parse_args, udp_flag, mode_udp}
use zyndra.Receiver.Setup.Registers.{Registers, nothing_held, Ends, setup-Ends}
use zyndra.Ring.{ringbuf_used}
use zyndra.Receiver.{
  bytes_at, copy_block, receive, fill, empty_pool, Pool, transmit, Event, receives, transmits,
}

abbrev memory : ℕ → ℕ
memory n = n

abbrev rounds : List (Event 2 2 6)
rounds =
    transmits
    ∷ receives 4 memory
    ∷ receives 4 memory
    ∷ receives 2 memory
    ∷ transmits
    ∷ receives 0 memory
    ∷ transmits
    ∷ transmits
    ∷ []

abbrev nothing : ℕ → List ℕ
nothing n = []

-- The FPGA completes a block, and the sender points to it, so many times.
abbrev filling : ℕ → ℕ → List (Udp.Event 33 2 6)
filling zero k = Udp.transmits (some 30) ∷ []
filling (suc n) k = Udp.receives ((k * 2 + 2) % 6) memory ∷ Udp.transmits none ∷ filling n (k + 1)

filling-InRing : (n k : ℕ) → All (Udp.Order.InRing 33 2 6) (filling n k)
filling-InRing zero k = (tt, tt)
filling-InRing (suc n) k = (omega arith, (tt, filling-InRing n (k + 1)))

-- A whole batch of 32, of which `sendmmsg` sends 30.
abbrev calls : List Udp.Batch
calls = (Udp.run 33 2 6 (filling 32 0) (idle nothing 33)).0

run_udp-accepted_example :
    let s = (Udp.run 33 2 6 (filling 32 0) (idle nothing 33)).1 in
    (rest : List (List ℕ)) × (given_all calls ++ rest
      ≡ Udp.Order.accepted 33 2 6 (filling 32 0) (idle nothing 33))
    × All IsFull calls
    × ((transmit_udp 33 none s.posts s ≢ none) ⊎ (length rest < udp_batch))
run_udp-accepted_example =
    run_udp-accepted 33 2 6 (omega arith) (omega arith) (omega arith) (omega arith) (omega arith)
      (filling 32 0) nothing none (filling-InRing 32 0)

abbrev counts_of : List Udp.Batch → List (ℕ × ℕ)
counts_of [] = []
counts_of (x ∷ xs) = (length x.given, length x.went) ∷ counts_of xs

calls_made : counts_of calls ≡ (32, 30) ∷ []
unfolding Udp.run Udp.receive_into transmit_udp Udp.send_batch Udp.take_slot Udp.sent_of receive
    fill copy_block ringbuf_used empty_pool bytes_at
calls_made = refl

-- Buffers 1 and 2 of three are in use.
abbrev stocked : Pool
stocked = record {
  slots = λ k. k ∷ [];
  slot_free = 1;
  slot_used = 2;
  in_nr = 0;
  out_nr = 1;
  rd_ptr = 0;
  wait_cnt = 0;
  lost_bytes = 0;
  pass_cnt = 3;
  send_cnt = 1;
}

transmit-lose_client_example :
    (t : Pool) × (z : List ℕ) × (u : Pool) × (lose_client stocked ≡ some t)
    × (transmit 3 2 6 t ≡ some (z, u))
    × (z ≢ 2 ∷ [])
transmit-lose_client_example =
    transmit-lose_client 3 2 6 stocked (1 ∷ []) (2 ∷ []) []
      (record {
        used = refl;
        room = omega arith;
        base_in = omega arith;
        in_at = refl;
        rd_in = omega arith;
        holds = (refl, (refl, tt));
      })
      (λ e. cc)

abbrev board : System
board = record {
  alloc = true;
  opens = true;
  maps_registers = true;
  info = 0xCAFE0001;
  maps_ring = true;
  ctrl = 1;
  reg_file = some (0x1f ∷ 0 ∷ 0 ∷ 0 ∷ 0 ∷ 0x10 ∷ 0 ∷ 0 ∷ []);
}

abbrev running : Registers
running = record { ctrl = 1; base = 0; size = 0; held = true }

setup-Ends_example : Ends true nothing_held board running (setup board)
setup-Ends_example = setup-Ends board running refl refl

reads_memory : read_reserved_mem board.reg_file ≡ some (0x1f000000, 0x100000)
unfolding read_reserved_mem
reads_memory = refl

parses :
    parse_args (λ t. length t) (udp_flag ∷ (b'h' ∷ b':' ∷ b'9' ∷ []) ∷ [])
    ≡ some (record {
      send_mode = mode_udp;
      port = 1;
      host = b'h' ∷ [];
      buf_cnt = 1024;
      buf_size = 1472;
    })
unfolding parse_args split_last_colon
parses = refl
