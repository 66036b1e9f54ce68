-- ===== src/Txrx/SessionTests.antt =====
-- The theorems on a session, the check of a block and the command line, at concrete inputs.
use zyndra.Base.{
  ℕ, ◌+◌, ◌==◌, ◌≡◌, refl, arith, Bool, true, false, ltb, List, [], ◌∷◌, length, if◌then◌else◌,
}
use zyndra.Txrx.Session.{
  tcp, udp, Shared, start, Step, by_rx, by_tx, Reach, here, next, rx_mmap, rx_accept, rx_signal,
  rx_udp_begin, rx_done, tx_mmap, tx_accept, tx_woken, tx_prefill, tx_prefilled, tx_enable,
  tx_accepted, rx_dropping, rx_streaming, tx_streaming, rx_mmap_fails, tx_mmap_fails, tx_done,
}
use zyndra.Txrx.Session.Order.{past_wait, enabled-after-both}
use zyndra.Txrx.Session.Udp.{udp-never-enables}
use zyndra.Txrx.Session.Lost.{stranded-stuck}
use zyndra.Txrx.Session.Rounds.{Rounds, begins, opens, runs, Rounds-joined}
use zyndra.Txrx.Session.Rounds.{Rounds, begins, opens, runs, Rounds-joined}
use zyndra.Txrx.Prbs.{PrbsIq}
use zyndra.Txrx.Verify.{equal_run, check_block}
use zyndra.Txrx.Verify.Matches.{Judged, check_block-Judged}
use zyndra.Txrx.Cli.{
  Text, rx_udp_opt, tx_tcp_opt, tx_depth_opt, CliCfg, Opt, mode_udp, mode_tcp, diag_none,
}
use zyndra.Txrx.Cli.Said.{Said}

abbrev running : Shared
running = record start {
  rx = rx_dropping 1;
  tx = tx_streaming;
  active = true;
  enabled = true;
  rx_mapped_once = true;
  tx_mapped_once = true;
  filled = 1;
}

enabled_run : Reach tcp 1 start running
enabled_run =
    let r = next (next here (by_rx (rx_mmap refl))) (by_tx (tx_mmap refl)) in
    let r = next (next r (by_rx (rx_accept refl refl))) (by_tx (tx_accept refl)) in
    let r = next (next r (by_rx (rx_signal refl))) (by_tx (tx_woken refl refl)) in
    next (next (next r (by_tx (tx_prefill 0 refl))) (by_tx (tx_prefilled refl)))
      (by_tx (tx_enable refl))

enabled-after-both_example :
    (running.rx_mapped_once ≡ true) × (running.tx_mapped_once ≡ true) × (running.filled ≡ 1)
enabled-after-both_example = enabled-after-both enabled_run refl

abbrev udp_state : Shared
udp_state = record start {
  rx = rx_streaming;
  tx = tx_accepted;
  rx_mapped_once = true;
  tx_mapped_once = true;
}

udp_run : Reach udp 2 start udp_state
udp_run =
    let r = next (next here (by_rx (rx_mmap refl))) (by_tx (tx_mmap refl)) in
    next (next r (by_rx (rx_udp_begin refl refl))) (by_tx (tx_accept refl))

udp-never-enables_example : (past_wait udp_state.tx ≡ false) × (udp_state.enabled ≡ false)
udp-never-enables_example = udp-never-enables udp_run

-- TX has accepted its client after RX has failed.
abbrev stranded : Shared
stranded = record start { rx = rx_done; tx = tx_accepted; fd_open = false; tx_mapped_once = true }

stranded-stuck_example : ¬ Step tcp 2 stranded start
stranded-stuck_example =
    stranded-stuck {mode = tcp} {blocks = 2} {s = stranded} {t = start}
      (record { ended = refl; down = refl; waits = refl })

abbrev table : ℕ → PrbsIq
table n = record { i = n; q = 0 }

-- The sequence from 3 on, with another sample at 2.
abbrev received : ℕ → PrbsIq
received n = if n == 2 then record { i = 9; q = 9 } else record { i = n + 3; q = 0 }

good_run : equal_run received table 0 3 0 ≡ true
unfolding equal_run
good_run = refl

bad_run : equal_run received table 0 3 4 ≡ false
unfolding equal_run
bad_run = refl

check_block-Judged_example : Judged received table 3 4 (check_block received table 3 4)
check_block-Judged_example = check_block-Judged received table 3 4 (omega arith)

abbrev digits : Text → ℕ
digits t = length t

abbrev nonzero : ℕ → Bool
nonzero n = ltb 0 n

abbrev both : CliCfg ℕ
both = record {
  diagnostic = diag_none;
  membench_loops = 0;
  rx_mode = mode_udp;
  tx_mode = mode_tcp;
  rx_port = 4;
  rx_host = b'a' ∷ b'b' ∷ [];
  tx_port = 4;
  tx_depth_msamples = 2;
}

abbrev options : List Opt
options =
    rx_udp_opt (b'a' ∷ b'b' ∷ b':' ∷ 1 ∷ 2 ∷ 3 ∷ 4 ∷ [])
    ∷ tx_tcp_opt (1 ∷ 2 ∷ 3 ∷ 4 ∷ [])
    ∷ tx_depth_opt (1 ∷ 2 ∷ [])
    ∷ []

-- Both threads fail to map.
both_fail : Rounds tcp 1 0 true (record start { rx = rx_done; tx = tx_done; fd_open = false })
both_fail =
    runs (runs (opens begins refl) (by_rx (rx_mmap_fails refl))) (by_tx (tx_mmap_fails refl))

Rounds-joined_example : (false ≡ false) × (false ≡ false)
Rounds-joined_example = Rounds-joined both_fail refl refl
