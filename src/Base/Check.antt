-- ===== src/Base/Check.antt =====
-- Facts about small ranges, checked by evaluation.
use Prim.Native.Nat.{ℕ, zero, suc, ◌+◌, ◌*◌, ◌/◌, ◌%◌, ◌<◌}
use mathlib.Core.Path.{◌≡◌, subst}
use mathlib.Core.Bool.{Bool, true, ◌&&◌}
use native.Mathlib.Nat.{div-add-mod', div-lt_iff_lt-mul, mod-lt}
use native.Mathlib.Omega.{arith}

unfoldable pub all_below : ℕ → (ℕ → Bool) → Bool
all_below zero test = true
all_below (suc top) test = test top && all_below top test

pub all_below_sound :
    (bound : ℕ) (test : ℕ → Bool) (k : ℕ) → all_below bound test ≡ true → k < bound → test k ≡ true
unfolding all_below
all_below_sound zero test k passed lt = absurd (omega arith)
all_below_sound (suc top) test k passed lt = ground (arith, all_below_sound top test k)

-- Every number below `m * n`, in `m` runs of `n`.
unfoldable pub all_below_runs : ℕ → ℕ → (ℕ → Bool) → Bool
unfolding all_below
all_below_runs m n p = all_below m (λ hi. all_below n (λ lo. p (hi * n + lo)))

pub all_below_runs_sound :
    (m n : ℕ) (p : ℕ → Bool) (x : ℕ) → all_below_runs m n p ≡ true → 0 < n → x < m * n → p x ≡ true
unfolding all_below_runs
all_below_runs_sound m n p x h pos lt =
    subst (λ k. p k ≡ true) split
      (all_below_sound n (λ lo. p (x / n * n + lo)) (x % n)
        (all_below_sound m (λ hi. all_below n (λ lo. p (hi * n + lo))) (x / n) h hi_lt) lo_lt)
  where
    split : x / n * n + x % n ≡ x
    split = div-add-mod' x n

    hi_lt : x / n < m
    hi_lt = (div-lt_iff_lt-mul pos).1 lt

    lo_lt : x % n < n
    lo_lt = mod-lt x pos
