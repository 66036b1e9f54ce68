-- ===== src/Axi/ReportTests.antt =====
-- The theorems on the report and the probe at concrete inputs.
use zyndra.Base.{ℕ, ◌/◌, ◌≡◌, refl, arith, true, false, [], none, some}
use zyndra.Axi.State.{Priv}
use zyndra.Axi.Stats.{StatsCall, stats_show, percent, us_delta}
use zyndra.Axi.Stats.Report.{stats_show-faults}
use zyndra.Axi.Probe.{Platform, got, probed, probe, region, check_fpga, register_misc, fresh_priv}

abbrev active : Priv
active = record {
  txbuf_phys = 0x1000;
  txbuf_size = 0;
  txbuf_size_max = 20000;
  tx_wr_ptr = 0;
  rxbuf_phys = 0x8000;
  rxbuf_size = 20000;
  rxbuf_size_max = 20000;
  rd_ptr = 0;
  in_use = 1;
  closing = false;
  blocks_ready = 0;
  timer_wr_ptr = 0;
  open_time = 0;
  last_read_time = 0;
  total_bytes_written = 0;
  prev_wr_ptr = 0;
  buf_used_peak = 0;
  read_count = 0;
  overrun_bytes = 0;
  effects = [];
}

abbrev at_time : ℕ → StatsCall
at_time t = record { now = t; rx_overflow = 0; rx_buf_wr = 500; tx_buf_rd = 0; tx_underrun = 0 }

percent_full : percent 19999 20000 ≡ some 99
unfolding percent
percent_full = refl

early_delta : (us_delta 500000 0 ≡ 500) × (us_delta 5000000 0 / 1000 ≡ 5)
unfolding us_delta
early_delta = (refl, refl)

-- Half a millisecond after the open.
stats_show-faults_example : stats_show (at_time 500000) active ≡ none
stats_show-faults_example =
    stats_show-faults (at_time 500000) active (omega arith) (omega (arith, early_delta.0))
      (omega (arith, early_delta.0))

abbrev board : Platform
board = record {
  alloc = true;
  regs = got 0;
  info = 0xad930001;
  node = λ i. true;
  resource = λ i. got (record { start = 4096; size = 64 });
  misc = got 0;
}

abbrev probed_priv : Priv
probed_priv = record active {
  txbuf_phys = 4096;
  txbuf_size_max = 64;
  rxbuf_phys = 4096;
  rxbuf_size = 0;
  rxbuf_size_max = 64;
  in_use = 0;
}

board_probes : (probe board).0 ≡ probed probed_priv
unfolding probe region check_fpga register_misc fresh_priv
board_probes = refl
