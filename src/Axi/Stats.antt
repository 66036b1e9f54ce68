-- ===== src/Axi/Stats.antt =====
-- `ad936x_axi_stats_show`, the debugfs report. The clock is monotonic, so the deltas are not
-- negative.
pub mod Report
use zyndra.Base.{
  ℕ, ◌-◌, ◌*◌, ◌/◌, ◌%◌, ◌^◌, Bool, Option, none, some, List, [], ◌∷◌, ◌++◌, ltb, ◌==◌, true, false,
  if◌then◌else◌,
}
use zyndra.Ring.{ringbuf_used}
use zyndra.Axi.State.{Priv}

-- The lines of the report, with the numbers that they print. The rates are given without their
-- fraction, which the code passes in the same argument list that sets it.
pub data Line : Type 0 where
  state_line : Bool → Line
  idle_hint : Line
  uptime_line : ℕ → ℕ → Line
  bandwidth_line : ℕ → Line
  sample_rate_line : ℕ → Line
  total_bytes_line : ℕ → Line
  total_samples_line : ℕ → Line
  rx_pointers : ℕ → ℕ → ℕ → Line
  overrun_line : ℕ → Line
  rx_size_line : ℕ → Line
  rx_used_line : ℕ → ℕ → Line
  rx_peak_line : ℕ → ℕ → Line
  read_count_line : ℕ → Line
  read_age_line : ℕ → ℕ → Line
  tx_pointers : ℕ → ℕ → ℕ → Line
  tx_size_line : ℕ → Line
  tx_used_line : ℕ → ℕ → Line

-- What the report reads from the clock and the registers.
pub record StatsCall : Type 0 where
  pub now : ℕ
  pub rx_overflow : ℕ
  pub rx_buf_wr : ℕ
  pub tx_buf_rd : ℕ
  pub tx_underrun : ℕ

-- A division; `none` is a division by zero in the kernel.
abbrev pub divide : ℕ → ℕ → Option ℕ
divide a b = if b == 0 then none else some (a / b)

infixl 5 ◌>>=◌
abbrev pub ◌>>=◌ {ℓ κ} : {A : Type ℓ} {B : Type κ} → Option A → (A → Option B) → Option B
none >>= f = none
some a >>= f = f a

-- `used / (size / 100)`
unfoldable pub percent : ℕ → ℕ → Option ℕ
percent used size = divide used (size / 100)

unfoldable pub us_delta : ℕ → ℕ → ℕ
us_delta now earlier = (now - earlier) / 1000

unfoldable pub rates : ℕ → ℕ → Option (List Line)
rates uptime_us total = do
  let uptime_ms = uptime_us / 1000 % 2 ^ 32
  mbps ← divide (total * 800 % 2 ^ 64) uptime_ms
  msps ← divide (total / 4 * 100000 % 2 ^ 64) uptime_ms
  some (bandwidth_line (mbps / 100) ∷ sample_rate_line (msps / 100) ∷ [])

unfoldable pub rx_lines : StatsCall → Priv → Option (List Line)
rx_lines c p = do
  let used = ringbuf_used p.rd_ptr c.rx_buf_wr p.rxbuf_size
  let age_us = us_delta c.now p.last_read_time
  used_pct ← percent used p.rxbuf_size
  peak_pct ← percent p.buf_used_peak p.rxbuf_size
  some (
      rx_pointers c.rx_buf_wr p.rd_ptr c.rx_overflow
      ∷ overrun_line p.overrun_bytes
      ∷ rx_size_line p.rxbuf_size
      ∷ rx_used_line used used_pct
      ∷ rx_peak_line p.buf_used_peak peak_pct
      ∷ read_count_line p.read_count
      ∷ read_age_line (age_us / 1000000) (age_us % 1000000 / 1000)
      ∷ [])

unfoldable pub tx_lines : StatsCall → Priv → Option (List Line)
tx_lines c p = do
  let used = ringbuf_used c.tx_buf_rd p.tx_wr_ptr p.txbuf_size
  used_pct ← percent used p.txbuf_size
  some (
      tx_pointers p.tx_wr_ptr c.tx_buf_rd c.tx_underrun
      ∷ tx_size_line p.txbuf_size
      ∷ tx_used_line used used_pct
      ∷ [])

-- The report while the device is open.
unfoldable pub active_lines : StatsCall → Priv → Option (List Line)
active_lines c p = do
  let uptime_us = us_delta c.now p.open_time
  let total = p.total_bytes_written
  speed ← (if ltb 0 uptime_us then rates uptime_us total else some [])
  rx ← (if ltb 0 p.rxbuf_size then rx_lines c p else some [])
  tx ← (if ltb 0 p.txbuf_size then tx_lines c p else some [])
  some (
      uptime_line (uptime_us / 1000000) (uptime_us % 1000000 / 1000)
      ∷ (speed ++ (total_bytes_line total ∷ total_samples_line (total / 4) ∷ (rx ++ tx))))

unfoldable pub stats_show : StatsCall → Priv → Option (List Line)
stats_show c p =
    if p.in_use == 0
    then some (state_line false ∷ idle_hint ∷ [])
    else (active_lines c p >>= λ ls. some (state_line true ∷ ls))
