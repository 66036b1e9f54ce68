-- ===== src/Streamer/Tests.antt =====
-- The streamer's theorems at concrete inputs.
use zyndra.Base.{ℕ, ◌+◌, ◌*◌, ◌≤◌, ◌≡◌, refl, arith, List, [], ◌∷◌, true}
use zyndra.Axi.Probe.{got, Platform, probe, probed, region, check_fpga, register_misc, fresh_priv}
use zyndra.Axi.State.{Priv}
use zyndra.Ring.{ringbuf_used}
use zyndra.Receiver
use zyndra.Streamer.{
  Streamer, Round, moved, failed, sync_for_cpu, fpga_reset_and_enable, turn, go_on, after_send,
  advance, ksock_send, bytes_at,
}
use zyndra.Streamer.Content.{Follows, begins, writes, turns, Follows-stream}
use zyndra.Streamer.Attach.{start_thread, tcp_probe, tcp_probe-probe}

abbrev memory : ℕ → ℕ
memory n = n

abbrev rounds : List Round
rounds =
    record { wr_ptr = 1; ring = memory; answers = [] }
    ∷ record { wr_ptr = 3; ring = memory; answers = moved 1 ∷ moved 1 ∷ [] }
    ∷ record { wr_ptr = 0; ring = memory; answers = moved 1 ∷ failed ∷ [] }
    ∷ []

abbrev idle : Streamer
idle = record { rxbuf_phys = 64; rxbuf_size = 4; rd_ptr = 3; effects = [] }

abbrev board : Platform
board = record {
  alloc = true;
  regs = got 0;
  info = 0xAD930001;
  node = λ i. true;
  resource = λ i. got (record { start = i; size = 65536 });
  misc = got 0;
}

abbrev attached : Streamer
attached = record { rxbuf_phys = 0; rxbuf_size = 65536; rd_ptr = 0; effects = [] }

probes : (tcp_probe board (got 1)).0 ≡ probed attached
unfolding tcp_probe start_thread region check_fpga
probes = refl

abbrev axi : Priv
axi = fresh_priv (record { start = 0; size = 65536 }) (record { start = 1; size = 65536 })

axi_probes : (probe board).0 ≡ probed axi
unfolding probe region check_fpga register_misc
axi_probes = refl

tcp_probe-probe_example :
    (attached.rxbuf_phys ≡ axi.txbuf_phys) × (attached.rxbuf_size ≡ axi.txbuf_size_max)
tcp_probe-probe_example = tcp_probe-probe board (got 1) probes axi_probes

-- A block of 2 bytes in a ring of 4, of which 3 are written; the stream counts up from 9.
abbrev a_round : Round
a_round = record { wr_ptr = 3; ring = λ a. a + 9; answers = moved 1 ∷ moved 1 ∷ [] }

abbrev begun : Streamer
begun = record {
  rxbuf_phys = 64;
  rxbuf_size = 4;
  rd_ptr = 0;
  effects = (fpga_reset_and_enable idle).effects;
}

abbrev sent_one : Streamer
sent_one = record begun { rd_ptr = 2; effects = sync_for_cpu 64 2 ∷ begun.effects }

block_sent : turn 2 a_round begun ≡ go_on ((0, 9 ∷ 10 ∷ []) ∷ []) sent_one
unfolding turn after_send advance ksock_send bytes_at ringbuf_used
block_sent = refl

one_block :
    Follows 2 2
      (λ i. i + 9)
      (9 ∷ 10 ∷ [])
      (record { driver = sent_one; written = 0 + 3; passed = 0 + 1 })
unfolding fpga_reset_and_enable
one_block =
    turns a_round 0 sent_one
      (writes 3 (begins idle (omega arith) (omega arith) (omega arith) refl) (omega arith)) refl
      (λ i lt le. omega arith) block_sent

Follows-stream_example :
    (9 ∷ 10 ∷ [] ≡ Receiver.bytes_at (λ i. i + 9) 0 ((0 + 1) * 2)) × ((0 + 1) * 2 ≤ 0 + 3)
Follows-stream_example = Follows-stream 2 2 one_block
