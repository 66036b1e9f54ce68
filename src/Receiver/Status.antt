-- ===== src/Receiver/Status.antt =====
-- The statistics thread of ad9361_rx.c, which prints the counters' growth every second.
use zyndra.Base.{ℕ, ◌+◌, ◌/◌, ◌%◌, ◌^◌, ◌<◌, ◌≡◌, refl, arith, List, [], ◌∷◌, sub32, mul32}

-- The counters `s_send_cnt`, `s_pass_cnt`, `s_buf_wait_cnt` and `s_lost_bytes`.
pub record Counts : Type 0 where
  pub send : ℕ
  pub pass : ℕ
  pub wait : ℕ
  pub lost : ℕ

-- A line; `samples` is what the rate is computed from with the time in between.
pub record Line : Type 0 where
  pub sent : ℕ
  pub passed : ℕ
  pub waited : ℕ
  pub in_buffer : ℕ
  pub samples : ℕ
  pub lost_now : ℕ

abbrev pub no_counts : Counts
no_counts = record { send = 0; pass = 0; wait = 0; lost = 0 }

-- `SAMPLE_SIZE` is 4.
unfoldable pub status_line : ℕ → Counts → Counts → Line
status_line buf_size prev now = record {
  sent = sub32 now.send prev.send;
  passed = sub32 now.pass prev.pass;
  waited = sub32 now.wait prev.wait;
  in_buffer = sub32 now.pass now.send;
  samples = mul32 (sub32 now.send prev.send) buf_size / 4;
  lost_now = sub32 now.lost prev.lost;
}

-- The lines for what the counters are, second by second.
unfoldable pub status_thread : ℕ → Counts → List Counts → List Line
status_thread buf_size prev [] = []
status_thread buf_size prev (now ∷ later) =
    status_line buf_size prev now ∷ status_thread buf_size now later

abbrev pub last_of : Counts → List Counts → Counts
last_of prev [] = prev
last_of prev (now ∷ later) = last_of now later

abbrev pub total : (Line → ℕ) → List Line → ℕ
total g [] = 0
total g (l ∷ ls) = g l + total g ls

-- The counters are words.
abbrev pub AreWords : Counts → Type 0
AreWords c = (c.send < 2 ^ 32) × (c.pass < 2 ^ 32) × (c.wait < 2 ^ 32) × (c.lost < 2 ^ 32)

abbrev pub AllWords : List Counts → Type 0
AllWords [] = Unit
AllWords (c ∷ cs) = AreWords c × AllWords cs

-- A counter, and its column in the lines.
pub record Column : Type 0 where
  pub counter : Counts → ℕ
  pub shown : Line → ℕ

total-column :
    (buf_size : ℕ) (c : Column)
    → ((prev now : Counts)
        → c.shown (status_line buf_size prev now) ≡ sub32 (c.counter now) (c.counter prev))
    → (prev : Counts) (cs : List Counts) → ((x : Counts) → AreWords x → c.counter x < 2 ^ 32)
    → AreWords prev
    → AllWords cs
    → (c.counter prev + total c.shown (status_thread buf_size prev cs)) % 2 ^ 32
      ≡ c.counter (last_of prev cs) % 2 ^ 32
unfolding status_thread
total-column buf_size c e prev [] small w ws = omega arith
total-column buf_size c e prev (now ∷ cs) small w ws = omega (
  arith,
  e prev now,
  small prev w,
  small now ws.0,
  total-column buf_size c e now cs small ws.0 ws.1,
)

-- From the start on, over any number of seconds and round the end of the words, the numbers printed
-- in a column sum up to the counter, modulo 2^32: nothing is counted twice or passed over between
-- two lines.
pub status_thread-totals :
    (buf_size : ℕ) (cs : List Counts)
    → AllWords cs
    → let lines = status_thread buf_size no_counts cs in
      let end = last_of no_counts cs in
      (total (λ l. l.sent) lines % 2 ^ 32 ≡ end.send % 2 ^ 32)
      × (total (λ l. l.passed) lines % 2 ^ 32 ≡ end.pass % 2 ^ 32)
      × (total (λ l. l.waited) lines % 2 ^ 32 ≡ end.wait % 2 ^ 32)
      × (total (λ l. l.lost_now) lines % 2 ^ 32 ≡ end.lost % 2 ^ 32)
unfolding status_line
status_thread-totals buf_size cs ws = (
  omega (
    arith,
    total-column buf_size (record { counter = λ c. c.send; shown = λ l. l.sent }) (λ prev now. refl)
        no_counts cs (λ x w. w.0) start ws,
  ),
  omega (
    arith,
    total-column buf_size (record { counter = λ c. c.pass; shown = λ l. l.passed })
        (λ prev now. refl) no_counts cs (λ x w. w.1) start ws,
  ),
  omega (
    arith,
    total-column buf_size (record { counter = λ c. c.wait; shown = λ l. l.waited })
        (λ prev now. refl) no_counts cs (λ x w. w.2) start ws,
  ),
  omega (
    arith,
    total-column buf_size (record { counter = λ c. c.lost; shown = λ l. l.lost_now })
        (λ prev now. refl) no_counts cs (λ x w. w.3) start ws,
  ),
)
  where
    start : AreWords no_counts
    start = omega arith
