-- ===== src/Receiver/TcpTests.antt =====
-- A client of ad9361_rx.c at a concrete run: a block is taken and sent in two calls.
use zyndra.Base.{
  ℕ, ◌+◌, ◌*◌, ◌%◌, ◌^◌, ◌≤◌, ◌<◌, ◌≡◌, refl, arith, List, [], ◌∷◌, concat, length, some, true,
}
use zyndra.Ring.{ringbuf_used}
use zyndra.Txrx.Net.Tcp.{Answer, moved, interrupted, socket_error, ok}
use zyndra.Txrx.Net.Tcp
use zyndra.Receiver.{Pool, empty_pool, bytes_at, receive, fill, copy_block}
use zyndra.Receiver.Server.{Event, receives, opens, accepts, serves, serve_all, fresh_server}
use zyndra.Receiver.Server.Clients.{IsConsistent, serve_all-fresh_server}
use zyndra.Receiver.Tcp.{serve_round, send_bytes, after_send}
use zyndra.Receiver.Tcp.Flow as FlowModule
use zyndra.Receiver.Tcp.Flow.{Flow, Flows, begins, writes, takes, received, Apart, pieces}
use zyndra.Receiver.Tcp.Stream.{Flows-pieces, Flows-stream}

-- Two buffers of 2 bytes, a ring of 6; the stream counts up from 5, and three bytes are written.
abbrev started : Flow
started = record { pool = empty_pool (λ n. []) 2; written = 0 + 3; pos = 0; starts = [] }

abbrev taken : Flow
taken = received 2 2 6 (λ a. a + 5) started

abbrev answers : List Answer
answers = moved 1 ∷ interrupted ∷ moved 7 ∷ []

abbrev after_block : Pool
after_block = after_send 2 ok taken.pool

block_runs : serve_round 2 answers taken.pool ≡ some (ok, 5 ∷ 6 ∷ [], after_block)
unfolding serve_round send_bytes after_send receive fill copy_block bytes_at empty_pool ringbuf_used
    Tcp.tcp_send
block_runs = refl

taken-Flows : Flows 2 2 6 (λ i. i + 5) [] taken
taken-Flows =
    takes (λ a. a + 5) (writes 3 (begins (λ n. [])) (omega arith)) (λ i lt le. omega arith)

sent-Flows : Flows 2 2 6 (λ i. i + 5) (5 ∷ 6 ∷ []) (record taken { pool = after_block })
sent-Flows = FlowModule.serves answers after_block taken-Flows block_runs

Flows-pieces_example :
    (rest : List ℕ) × (5 ∷ 6 ∷ rest ≡ concat (pieces 2 (λ i. i + 5) taken.starts))
    × Apart 2 0 taken.starts taken.pos
    × (taken.pos ≤ taken.written)
    × ((after_block.lost_bytes + 2 * length taken.starts) % 2 ^ 32 ≡ taken.pos % 2 ^ 32)
Flows-pieces_example =
    Flows-pieces 2 2 6 (omega arith) (omega arith) (omega arith) (omega arith) (omega arith)
      sent-Flows

none_lost : after_block.lost_bytes ≡ 0
unfolding after_send receive fill empty_pool ringbuf_used
none_lost = refl

early : taken.pos < 2 ^ 32
unfolding receive fill empty_pool ringbuf_used
early = omega arith

Flows-stream_example : (rest : List ℕ) × (5 ∷ 6 ∷ rest ≡ bytes_at (λ i. i + 5) 0 taken.pos)
Flows-stream_example =
    Flows-stream 2 2 6 (omega arith) (omega arith) (omega arith) (omega arith) (omega arith)
      sent-Flows none_lost early

-- A client comes, takes a block, and goes away.
abbrev events : List (Event 2 2 6)
events =
    opens true true
    ∷ receives 3 (λ a. a + 5)
    ∷ accepts true
    ∷ serves answers
    ∷ receives 5 (λ a. a + 5)
    ∷ serves (socket_error ∷ [])
    ∷ accepts true
    ∷ []

serve_all-fresh_server_example :
    IsConsistent 2 (serve_all 2 2 6 events (fresh_server (empty_pool (λ n. []) 2)))
serve_all-fresh_server_example = serve_all-fresh_server 2 2 6 events (λ n. [])
