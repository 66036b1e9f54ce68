-- ===== src/Txrx/Diag/Bench.antt =====
-- `diag_membench`, and what `diag_test` and `diag_loopback` print.
use zyndra.Base.{
  ℕ, zero, suc, ◌+◌, ◌-◌, ◌*◌, ◌/◌, ◌%◌, ◌^◌, ◌==◌, ◌≤◌, ◌<◌, ◌≡◌, refl, ap, ◌∙◌, sym, arith, List,
  [], ◌∷◌, ◌++◌, concat, ap₂, subst, append_assoc, Option, none, some, if◌then◌else◌, ltb, add32,
  add64, dec_lt, lt→ltb, le→ltb,
}
use mathlib.Core.Option
use zyndra.Ring.{ringbuf_used}
use zyndra.Axi.Read.{RxRead}
use zyndra.Axi.Rx.Content.{bytes_at-add}
use zyndra.Receiver.{bytes_at}

-- `block_size` of `diag_membench`
abbrev pub bench_block : ℕ
bench_block = 65536

-- The loop over the map, and what its `memcpy` calls copy; `none` is the end of the fuel.
unfoldable pub bench_pass : ℕ → (ℕ → ℕ) → ℕ → ℕ → Option (List (List ℕ))
bench_pass zero map rx_buf_size off = none
bench_pass (suc fuel) map rx_buf_size off =
    let rest = bench_pass fuel map rx_buf_size (add32 off bench_block) in
    if ltb off rx_buf_size
    then Option.map (λ xs. bytes_at map off bench_block ∷ xs) rest
    else some []

abbrev pub after_pass :
    Option (List (List ℕ)) → Option (List (List ℕ) × ℕ) → Option (List (List ℕ) × ℕ)
after_pass none rest = none
after_pass (some xs) none = none
after_pass (some xs) (some (ys, n)) = some (xs ++ ys, n)

-- So many loops, and `total_bytes`.
unfoldable pub bench_loops : (ℕ → ℕ) → ℕ → ℕ → ℕ → Option (List (List ℕ) × ℕ)
bench_loops map rx_buf_size zero total_bytes = some ([], total_bytes)
bench_loops map rx_buf_size (suc loops) total_bytes =
    let rest = bench_loops map rx_buf_size loops (add64 total_bytes rx_buf_size) in
    after_pass (bench_pass (rx_buf_size / bench_block + 2) map rx_buf_size 0) rest

-- `loops` is an `int`, given by its bit pattern; there is no loop for a negative one.
abbrev pub loops_run : ℕ → ℕ
loops_run loops = if ltb loops (2 ^ 31) then loops else 0

unfoldable pub membench : (ℕ → ℕ) → ℕ → ℕ → Option (List (List ℕ) × ℕ)
membench map rx_buf_size loops = bench_loops map rx_buf_size (loops_run loops) 0

-- A round of `diag_test`: the bytes that wait, in per cent too, and the word at which the next
-- block starts, if the ring is not empty. `none` is a division by zero.
pub record TestLine : Type 0 where
  pub rd : ℕ
  pub hw_wr : ℕ
  pub used : ℕ
  pub percent : ℕ
  pub first_word : Option ℕ

unfoldable pub test_line : ℕ → RxRead → Option TestLine
test_line rx_buf_size r =
    let used = ringbuf_used r.rd r.hw_wr rx_buf_size in
    if rx_buf_size / 100 == 0
    then none
    else some (record {
      rd = r.rd;
      hw_wr = r.hw_wr;
      used = used;
      percent = used / (rx_buf_size / 100);
      first_word = if r.hw_wr == r.rd then none else some (r.rd / 4);
    })

-- A block that `diag_loopback` prints: its number, the answer, and the words of its first 8 samples.
pub record LoopbackLine : Type 0 where
  pub block : ℕ
  pub answer : RxRead
  pub words : List ℕ

abbrev pub first_samples : ℕ
first_samples = 8

-- The loop over the answers; `map` gives the words of 16 bits of the RX map.
unfoldable pub loopback_lines : (ℕ → ℕ) → ℕ → List RxRead → List LoopbackLine
loopback_lines map count [] = []
loopback_lines map count (r ∷ rs) =
    let rest = loopback_lines map (add32 count 1) rs in
    if count % 16 == 0
    then record { block = count; answer = r; words = bytes_at map (r.rd / 2) (first_samples * 2) }
      ∷ rest
    else rest

-- The map's size, brought up to the next block.
abbrev pub whole_blocks : ℕ → ℕ
whole_blocks size = (size + 65535) / 65536 * 65536

-- A list, so many times.
abbrev pub repeated : ℕ → List ℕ → List ℕ
repeated zero xs = []
repeated (suc n) xs = xs ++ repeated n xs

-- The calls of a pass copy this, one after the other.
abbrev Copies : List ℕ → Option (List (List ℕ)) → Type 0
Copies bytes none = ⊥
Copies bytes (some xs) = concat xs ≡ bytes

Copies-cons :
    (bytes x rest : List ℕ) (o : Option (List (List ℕ)))
    → x ++ rest ≡ bytes
    → Copies rest o
    → Copies bytes (Option.map (λ xs. x ∷ xs) o)
Copies-cons bytes x rest none e h = h
Copies-cons bytes x rest (some xs) e h = ap (λ t. x ++ t) h ∙ e

bench_pass-Copies :
    (map : ℕ → ℕ) (size fuel m : ℕ)
    → size + 65536 < 2 ^ 32
    → size / 65536 + 2 ≤ fuel + m
    → m * 65536 ≤ whole_blocks size
    → Copies
        (bytes_at map (m * 65536) (whole_blocks size - m * 65536))
        (bench_pass fuel map size (m * 65536))
unfolding bench_pass bytes_at
bench_pass-Copies map size zero m small enough low = absurd (omega arith)
bench_pass-Copies map size (suc fuel) m small enough low = elim (dec_lt (m * 65536) size) [
  | yes more ↦
      rw (lt→ltb (m * 65536) size more, next more)
        (Copies-cons (bytes_at map (m * 65536) (whole_blocks size - m * 65536))
          (bytes_at map (m * 65536) 65536)
          (bytes_at map ((m + 1) * 65536) (whole_blocks size - (m + 1) * 65536))
          (bench_pass fuel map size ((m + 1) * 65536))
          (ap
              (λ a.
                bytes_at map (m * 65536) 65536
                ++ bytes_at map a (whole_blocks size - (m + 1) * 65536))
              {x = (m + 1) * 65536} {y = m * 65536 + 65536} (omega arith)
            ∙ (bytes_at-add map (m * 65536) 65536 (whole_blocks size - (m + 1) * 65536)
                ∙ ap (bytes_at map (m * 65536)) (omega (arith, more))))
          (bench_pass-Copies map size fuel (m + 1) small (omega arith) (omega (arith, more))))
  | no done ↦
      rw (le→ltb (m * 65536) size (omega arith))
        (ap (bytes_at map (m * 65536)) {x = 0} (omega (arith, done, low)))
]
  where
    next : m * 65536 < size → add32 (m * 65536) 65536 ≡ (m + 1) * 65536
    next more = omega arith

whole_pass-Copies :
    (map : ℕ → ℕ) (size : ℕ)
    → size + 65536 < 2 ^ 32
    → Copies (bytes_at map 0 (whole_blocks size)) (bench_pass (size / bench_block + 2) map size 0)
whole_pass-Copies map size small =
    subst
      (λ (z : ℕ × ℕ).
        Copies (bytes_at map z.0 z.1) (bench_pass (size / bench_block + 2) map size z.0))
      {x = (0 * 65536, whole_blocks size - 0 * 65536)} {y = (0, whole_blocks size)}
      (λ i. (start i, all i))
      (bench_pass-Copies map size (size / bench_block + 2) 0 small (omega arith) (omega arith))
  where
    start : 0 * 65536 ≡ 0
    start = omega arith

    all : whole_blocks size - 0 * 65536 ≡ whole_blocks size
    all = omega arith

-- The calls of all the loops copy this, and `total_bytes` ends so.
abbrev pub Benched : List ℕ → ℕ → Option (List (List ℕ) × ℕ) → Type 0
Benched bytes total_bytes none = ⊥
Benched bytes total_bytes (some (xs, n)) = (concat xs ≡ bytes) × (n ≡ total_bytes)

concat-append : (xs ys : List (List ℕ)) → concat (xs ++ ys) ≡ concat xs ++ concat ys
concat-append [] ys = refl
concat-append (x ∷ xs) ys =
    ap (λ t. x ++ t) (concat-append xs ys) ∙ sym (append_assoc x (concat xs) (concat ys))

Benched-pass :
    (bytes rest : List ℕ) (n : ℕ) (o : Option (List (List ℕ))) (r : Option (List (List ℕ) × ℕ))
    → Copies bytes o
    → Benched rest n r
    → Benched (bytes ++ rest) n (after_pass o r)
Benched-pass bytes rest n none r h k = h
Benched-pass bytes rest n (some xs) none h k = k
Benched-pass bytes rest n (some xs) (some (ys, m)) h k =
    (concat-append xs ys ∙ ap₂ (λ x y. x ++ y) h k.0, k.1)

bench_loops-from :
    (map : ℕ → ℕ) (size loops total_bytes : ℕ)
    → size + 65536 < 2 ^ 32
    → total_bytes < 2 ^ 64
    → Benched
        (repeated loops (bytes_at map 0 (whole_blocks size)))
        ((total_bytes + loops * size) % 2 ^ 64)
        (bench_loops map size loops total_bytes)
unfolding bench_loops
bench_loops-from map size zero total_bytes small h = (refl, omega arith)
bench_loops-from map size (suc loops) total_bytes small h =
    Benched-pass (bytes_at map 0 (whole_blocks size))
      (repeated loops (bytes_at map 0 (whole_blocks size)))
      ((total_bytes + suc loops * size) % 2 ^ 64) (bench_pass (size / bench_block + 2) map size 0)
      (bench_loops map size loops (add64 total_bytes size)) (whole_pass-Copies map size small)
      (subst
        (λ n.
          Benched (repeated loops (bytes_at map 0 (whole_blocks size))) n
            (bench_loops map size loops (add64 total_bytes size)))
        sum (bench_loops-from map size loops (add64 total_bytes size) small (omega arith)))
  where
    step : suc loops * size ≡ size + loops * size
    step = grind arith

    sum :
        (add64 total_bytes size + loops * size) % 2 ^ 64 ≡ (total_bytes + suc loops * size) % 2 ^ 64
    sum = omega (arith, step)

-- For a map more than 64 KiB short of 4 GiB, `diag_membench` ends: each loop copies the map from its
-- first byte to its last, in order and with no byte twice, and goes on to the next multiple of 64
-- KiB, behind the end of a map that is not such a multiple; `total_bytes` is the size of the map
-- times the loops, modulo 2^64. A negative number of loops copies nothing.
pub membench-Benched :
    (map : ℕ → ℕ) (size loops : ℕ)
    → size + 65536 < 2 ^ 32
    → Benched
        (repeated (loops_run loops) (bytes_at map 0 (whole_blocks size)))
        (loops_run loops * size % 2 ^ 64)
        (membench map size loops)
unfolding membench
membench-Benched map size loops small =
    subst
      (λ n.
        Benched (repeated (loops_run loops) (bytes_at map 0 (whole_blocks size))) n
          (bench_loops map size (loops_run loops) 0))
      {x = (0 + loops_run loops * size) % 2 ^ 64} {y = loops_run loops * size % 2 ^ 64}
      (omega arith) (bench_loops-from map size (loops_run loops) 0 small (omega arith))
