-- ===== src/Txrx/TxTests.antt =====
-- The transmit path from end to end, at a client that sends one block: the loop over the socket, and
-- a whole session behind a block of silence.
use zyndra.Base.{
  ltb, lt→ltb, length, if◌then◌else◌, ◌-◌, ℕ, ◌+◌, ◌*◌, ◌%◌, ◌++◌, ◌<◌, ◌≤◌, ◌≡◌, refl, arith, true,
  false, List, [], ◌∷◌,
}
use zyndra.Ring.{ringbuf_used}
use zyndra.Axi.State.{Priv, ret}
use zyndra.Axi.Write.{WriteCall, write, publish, flush, flush_ranges, has_room}
use zyndra.Axi.Tx.Play.{reach_all, reaches, length-bytes_at, Sender, Plays, begins}
use zyndra.Axi.Control.{enable_fpga}
use zyndra.Receiver.{bytes_at}
use zyndra.Txrx.Net.Tcp.{ok, moved, tcp_recv_full}
use zyndra.Txrx.Status.{DirStats}
use zyndra.Txrx.Tx.{Round, Ended, tx_loop, tx_tcp_session}
use zyndra.Txrx.Session.{prefill_blocks}
use zyndra.Txrx.Tx.Whole.{enabled_after, tx_tcp_session-sent}
use zyndra.Txrx.Tx.Live.{sent_during, asked, Playing, ends, goes_on, opened, tx_loop-sent}

abbrev no_stats : DirStats
no_stats = record { bytes = 0; overrun = 0; buf_used = 0; buf_size = 0 }

abbrev ring_of : ℕ → Priv
ring_of size = record {
  txbuf_phys = 0;
  txbuf_size = size;
  txbuf_size_max = size;
  tx_wr_ptr = 0;
  rxbuf_phys = 0;
  rxbuf_size = 0;
  rxbuf_size_max = 0;
  rd_ptr = 0;
  in_use = 1;
  closing = false;
  blocks_ready = 0;
  timer_wr_ptr = 0;
  open_time = 0;
  last_read_time = 0;
  total_bytes_written = 0;
  prev_wr_ptr = 0;
  buf_used_peak = 0;
  read_count = 0;
  overrun_bytes = 0;
  effects = [];
}

abbrev first : ℕ → Sender
first size = record {
  ring = λ a. 0;
  fpga = record { register = 0; memory = λ a. 0 };
  driver = ring_of size;
  log = [];
  stored = 0;
  published = 0;
  sent = 0;
}

abbrev a_round : Round
a_round = record {
  call = record { count = 0; copied = true; wr = 0; tx_rd = 0 };
  answers = moved 3 ∷ moved 1 ∷ [];
}

abbrev stream : List ℕ
stream = 5 ∷ 6 ∷ 7 ∷ 8 ∷ 9 ∷ []

arrives : (tcp_recv_full 4 stream a_round.answers).0 ≡ ok
unfolding tcp_recv_full
arrives = refl

is_taken : (write 4 (asked 4 4 (first 16) a_round.call) (ring_of 16)).0 ≡ ret 4
unfolding write has_room ringbuf_used
is_taken = refl

plays : Playing 4 4 (first 16) (a_round ∷ []) stream
plays = goes_on a_round 0 arrives (omega arith) refl (omega arith) is_taken (ends _ _)

carries : bytes_at (λ i. i + 5) 0 5 ≡ stream
unfolding bytes_at
carries = refl

abbrev one_round : Ended
one_round = tx_loop 4 (4 * 4) (opened 4 4 16) (a_round ∷ []) stream 0 (λ a. 0) no_stats (ring_of 16)

tx_loop-sent_example :
    (u : Sender) × (u.driver ≡ one_round.driver)
    × (u.ring ≡ one_round.map)
    × (u.log ≡ [] ++ one_round.blocks)
    × (u.published ≡ 0 + 1 * 4)
    × (u.sent ≡ 0 + sent_during 4 4 plays)
    × (ringbuf_used (u.sent % (4 * 4)) u.fpga.register (4 * 4) ≡ u.published - u.sent)
    × ((i : ℕ) → u.sent ≤ i → i < u.published → u.fpga.memory (i % (4 * 4)) ≡ i + 5)
    × (all : List ℕ) × Plays 4 4 (λ i. i + 5) all u
    × (all ≡ bytes_at (λ i. i + 5) 0 u.sent)
tx_loop-sent_example =
    tx_loop-sent 4 4 16 (omega arith) (omega arith) (omega arith) (a_round ∷ []) stream (first 16) 0
      no_stats [] plays
      (begins (λ a. 0) _ (ring_of 16) (omega arith) (omega arith) (omega arith) refl (omega arith)
        refl refl)
      refl refl carries (omega arith)

-- A block as long as the silence, so that one is stored, in a ring of four; then a block of the
-- client arrives, and the FPGA sends 100 bytes before it is published.
abbrev large : ℕ
large = 8388608

abbrev silent_call : WriteCall
silent_call = record { count = 0; copied = true; wr = 0; tx_rd = 0 }

silence_taken :
    (write large (asked large 4 (first 33554432) silent_call) (ring_of 33554432)).0 ≡ ret 4
unfolding write has_room ringbuf_used
silence_taken = refl

one_block : 1 ≡ prefill_blocks large
unfolding prefill_blocks
one_block = refl

-- Silence, and then samples.
abbrev played : ℕ → ℕ
played i = if ltb i large then 0 else 5

client : List ℕ
client = bytes_at played large large

length-client : length client ≡ large
unfolding client
length-client = length-bytes_at played large large

abbrev large_round : Round
large_round = record {
  call = record { count = 0; copied = true; wr = 0; tx_rd = 100 };
  answers = moved large ∷ [];
}

received_whole :
    (n : ℕ) (xs : List ℕ) → 0 < n → n ≤ length xs → (tcp_recv_full n xs (moved n ∷ [])).0 ≡ ok
unfolding tcp_recv_full
received_whole n xs pos le = ground arith

large_arrives : (tcp_recv_full large client large_round.answers).0 ≡ ok
large_arrives = received_whole large client (omega arith) (omega (arith, length-client))

abbrev enabled : Sender
enabled =
    enabled_after large 4 64 (omega arith) (omega arith) (omega arith) (silent_call ∷ [])
      (first 33554432)

silence_published : enabled.fpga.register ≡ large
unfolding write publish has_room ringbuf_used flush flush_ranges reach_all reaches
silence_published = refl

large_sends : 100 ≤ ringbuf_used (enabled.sent % (4 * large)) enabled.fpga.register (4 * large)
unfolding ringbuf_used
large_sends = rw silence_published (omega arith)

large_taken : (write large (asked large 4 enabled large_round.call) enabled.driver).0 ≡ ret 4
unfolding write publish has_room ringbuf_used enable_fpga
large_taken = refl

large_plays : Playing large 4 enabled (large_round ∷ []) client
large_plays =
    goes_on large_round 100 large_arrives large_sends refl (omega arith) large_taken (ends _ _)

client_follows : bytes_at played (1 * large) (length client) ≡ client
unfolding client
client_follows = rw length-client refl

abbrev client_session : Ended
client_session =
    tx_tcp_session large (4 * large) (opened large 4 64) true (silent_call ∷ []) (large_round ∷ [])
      client (λ a. 0) no_stats (ring_of 33554432)

tx_tcp_session-sent_example :
    (u : Sender) × (u.driver ≡ client_session.driver)
    × (u.ring ≡ client_session.map)
    × (u.log ≡ [] ++ client_session.blocks)
    × (u.published ≡ (1 + 1) * large)
    × (u.sent ≡ sent_during large 4 large_plays)
    × (ringbuf_used (u.sent % (4 * large)) u.fpga.register (4 * large) ≡ u.published - u.sent)
    × ((i : ℕ) → u.sent ≤ i → i < u.published → u.fpga.memory (i % (4 * large)) ≡ played i)
    × (out : List ℕ) × Plays large 4 played out u
    × (out ≡ bytes_at played 0 u.sent)
tx_tcp_session-sent_example =
    tx_tcp_session-sent large 4 64 (omega arith) (omega arith) (omega arith) true (silent_call ∷ [])
      (large_round ∷ []) client (first 33554432) no_stats
      (begins (λ a. 0) _ (ring_of 33554432) (omega arith) (omega arith) (omega arith) refl
        (omega arith) refl refl)
      refl refl refl one_block (refl, omega arith, silence_taken, tt) large_plays
      (λ i h. ground (arith, lt→ltb i large (omega (arith, h)))) client_follows
      (omega (arith, length-client))
