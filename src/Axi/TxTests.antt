-- ===== src/Axi/TxTests.antt =====
-- The transmit path at a concrete ring: a block is stored, published and sent.
use zyndra.Base.{ℕ, ◌+◌, ◌-◌, ◌∷◌, ◌*◌, ◌%◌, ◌≤◌, ◌<◌, ◌≡◌, refl, arith, true, false, []}
use zyndra.Ring.{ringbuf_used}
use zyndra.Axi.State.{Priv, ret}
use zyndra.Axi.Write.{WriteCall, write, publish, flush, flush_ranges, has_room}
use zyndra.Axi.Tx.Play.{
  Fpga, reaches, reach_all, fpga_after, Sender, Plays, begins, stores, publishes, sends, sent_from,
}
use zyndra.Axi.Tx.Content.{Plays-sent}
use zyndra.Receiver.{bytes_at}
use zyndra.Txrx.Tx.{store}

-- A driver with a mapped TX ring of 16 bytes.
abbrev playing : Priv
playing = record {
  txbuf_phys = 0;
  txbuf_size = 16;
  txbuf_size_max = 64;
  tx_wr_ptr = 0;
  rxbuf_phys = 64;
  rxbuf_size = 16;
  rxbuf_size_max = 64;
  rd_ptr = 0;
  in_use = 1;
  closing = false;
  blocks_ready = 0;
  timer_wr_ptr = 0;
  open_time = 0;
  last_read_time = 0;
  total_bytes_written = 0;
  prev_wr_ptr = 0;
  buf_used_peak = 0;
  read_count = 0;
  overrun_bytes = 0;
  effects = [];
}

abbrev first_write : WriteCall
first_write = record { count = 4; copied = true; wr = 4; tx_rd = 0 }

first_write_runs : (write 4 first_write playing).0 ≡ ret 4
unfolding write has_room ringbuf_used
first_write_runs = refl

-- The samples count up from 7.
abbrev samples : ℕ → ℕ
samples i = i + 7

abbrev empty_fpga : Fpga
empty_fpga = record { register = 0; memory = λ a. 0 }

abbrev filled : ℕ → ℕ
filled = store (λ a. 0) (0 % (4 * 4)) (bytes_at samples 0 4)

-- Three of the first block's four bytes are sent.
abbrev three_sent : Sender
three_sent = record {
  ring = filled;
  fpga = fpga_after 4 first_write filled playing empty_fpga;
  driver = (write 4 first_write playing).1;
  log = record { at = 0 % (4 * 4); bytes = bytes_at filled (0 % (4 * 4)) 4 } ∷ [];
  stored = 4;
  published = 4;
  sent = 3;
}

published_up_to : three_sent.fpga.register ≡ 4
unfolding write publish has_room ringbuf_used flush flush_ranges reach_all reaches
published_up_to = refl

three_at_most : 3 ≤ ringbuf_used (0 % (4 * 4)) three_sent.fpga.register (4 * 4)
unfolding ringbuf_used
three_at_most = rw published_up_to (omega arith)

three_sent-Plays : Plays 4 4 samples (sent_from three_sent.fpga.memory (4 * 4) 0 3) three_sent
three_sent-Plays =
    sends 3
      (publishes first_write
        (stores
          (begins (λ a. 0) empty_fpga playing (omega arith) (omega arith) (omega arith) refl
            (omega arith) refl refl)
          refl)
        refl refl refl (omega arith) first_write_runs)
      three_at_most

Plays-sent_example :
    (sent_from three_sent.fpga.memory (4 * 4) 0 3 ≡ bytes_at samples 0 3)
    × (3 ≤ 4)
    × (ringbuf_used (3 % (4 * 4)) three_sent.fpga.register (4 * 4) ≡ 4 - 3)
    × ((i : ℕ) → 3 ≤ i → i < 4 → three_sent.fpga.memory (i % (4 * 4)) ≡ samples i)
Plays-sent_example = Plays-sent 4 4 three_sent-Plays
