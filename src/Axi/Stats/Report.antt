-- ===== src/Axi/Stats/Report.antt =====
-- When the report divides by zero, and that its percentages stay within 100.
use native.Mathlib.Nat.{div-lt_iff_lt-mul}
use zyndra.Base.{ℕ, ◌/◌, ◌%◌, ◌^◌, ◌≤◌, ◌<◌, ◌≡◌, ◌≢◌, ◌⊎◌, arith, none, some}
use zyndra.Axi.State.{Priv}
use zyndra.Axi.Stats.{
  StatsCall, percent, us_delta, rates, active_lines, rx_lines, tx_lines, stats_show,
}

-- A fill of less than the ring is at most 100 per cent, for a ring of at least 9900 bytes.
pub percent-le :
    (used size : ℕ) {q : ℕ} → used < size → 9900 ≤ size → percent used size ≡ some q → q ≤ 100
unfolding percent
percent-le used size h k e =
    ground (arith, (div-lt_iff_lt-mul {k = size / 100} {x = used} {y = 101} (omega arith)).1)

-- The size of a mapped buffer that the report can divide by.
abbrev CanDivide : ℕ → Type 0
CanDivide size = (size ≡ 0) ⊎ (100 ≤ size)

module _ (c : StatsCall) (p : Priv) where
  abbrev uptime_ms : ℕ
  uptime_ms = us_delta c.now p.open_time / 1000 % 2 ^ 32

  -- A report within the first millisecond after the open, though not within the first
  -- microsecond, divides by zero.
  pub stats_show-faults :
      p.in_use ≢ 0
      → 0 < us_delta c.now p.open_time
      → us_delta c.now p.open_time < 1000
      → stats_show c p ≡ none
  unfolding stats_show active_lines rates
  stats_show-faults active some_time early = ground arith

  -- Where the uptime in milliseconds is not 0 modulo 2^32, and each buffer is unmapped or has at
  -- least 100 bytes, the report is produced.
  pub stats_show-returns :
      us_delta c.now p.open_time / 1000 % 2 ^ 32 ≢ 0
      → CanDivide p.rxbuf_size
      → CanDivide p.txbuf_size
      → stats_show c p ≢ none
  unfolding stats_show active_lines rates rx_lines tx_lines percent
  stats_show-returns up rx tx e = ground arith
