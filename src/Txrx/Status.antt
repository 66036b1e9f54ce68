-- ===== src/Txrx/Status.antt =====
-- stats.c: the summary that the statistics thread prints every second.
use zyndra.Base.{
  ℕ, ◌+◌, ◌-◌, ◌/◌, ◌%◌, ◌^◌, ◌≤◌, ◌≡◌, ◌==◌, arith, List, [], ◌∷◌, ◌++◌, Option, none, some,
  if◌then◌else◌,
}

-- `struct dir_stats`
pub record DirStats : Type 0 where
  pub bytes : ℕ
  pub overrun : ℕ
  pub buf_used : ℕ
  pub buf_size : ℕ

-- The counts at the last summary.
pub record Previous : Type 0 where
  pub prev_bytes : ℕ
  pub prev_overrun : ℕ

-- A line: the bytes since the last summary, from which both rates are computed with the time in
-- between; the fill in per cent; the bytes lost.
pub record DirLine : Type 0 where
  pub moved_bytes : ℕ
  pub buf_pct : ℕ
  pub lost : ℕ

abbrev pub sub64 : ℕ → ℕ → ℕ
sub64 a b = (a + 2 ^ 64 - b) % 2 ^ 64

-- The empty list is a direction that is not active; `none` is a division by zero.
unfoldable pub format_dir : DirStats → Previous → Option (List DirLine)
format_dir s prev =
    if s.buf_size == 0
    then some []
    else if s.buf_size / 100 == 0
    then none
    else some (
        record {
          moved_bytes = sub64 s.bytes prev.prev_bytes;
          buf_pct = s.buf_used / (s.buf_size / 100);
          lost = sub64 s.overrun prev.prev_overrun;
        }
        ∷ [])

-- One round of `status_thread`: the lines printed, RX before TX, and the counts to keep.
unfoldable pub status_round :
    DirStats → DirStats → Previous → Previous → Option (List DirLine) × Previous × Previous
status_round rx tx prev_rx prev_tx = (
  elim (format_dir rx prev_rx) [
    | none ↦ none
    | some rx_line ↦ elim (format_dir tx prev_tx) [
      | none ↦ none
      | some tx_line ↦ some (rx_line ++ tx_line)
    ]
  ],
  record { prev_bytes = rx.bytes; prev_overrun = rx.overrun },
  record { prev_bytes = tx.bytes; prev_overrun = tx.overrun },
)

-- For a ring of at least 100 bytes and a byte count that has grown by less than 2^64 since the last
-- summary, round the end of its word or not, a line is produced and shows that growth.
pub format_dir_lem :
    (s : DirStats) (prev : Previous) (k : ℕ)
    → 100 ≤ s.buf_size
    → k ≤ 2 ^ 64 - 1
    → s.bytes ≡ (prev.prev_bytes + k) % 2 ^ 64
    → prev.prev_bytes ≤ 2 ^ 64 - 1
    → format_dir s prev
      ≡ some (
          record {
            moved_bytes = k;
            buf_pct = s.buf_used / (s.buf_size / 100);
            lost = sub64 s.overrun prev.prev_overrun;
          }
          ∷ [])
unfolding format_dir
format_dir_lem s prev k big small e low = ground (arith, delta)
  where
    delta : sub64 s.bytes prev.prev_bytes ≡ k
    delta = omega (arith, e)
