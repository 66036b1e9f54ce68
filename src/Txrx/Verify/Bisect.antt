-- ===== src/Txrx/Verify/Bisect.antt =====
-- The binary search ends, and at the first sample that differs.
use zyndra.Base.{
  ℕ, zero, suc, ◌+◌, ◌-◌, ◌/◌, ◌≤◌, ◌<◌, ◌≡◌, ap, ◌∙◌, arith, true, false, ◌&&◌, some, Bool-cases,
  inl, inr, dec_lt, lt→ltb, le→ltb,
}
use zyndra.Txrx.Prbs.{PrbsIq}
use zyndra.Txrx.Verify.{same, equal_run, bisect}

module _ (blk lut : ℕ → PrbsIq) where
  moved :
      (n : ℕ) {s s' p p' : ℕ}
      → s ≡ s'
      → p ≡ p'
      → equal_run blk lut s p n ≡ equal_run blk lut s' p' n
  moved n e e' = λ i. equal_run blk lut (e i) (e' i) n

  pub equal_run-split :
      (s p m n k : ℕ)
      → m + n ≡ k
      → equal_run blk lut s p k ≡ (equal_run blk lut s p m && equal_run blk lut (s + m) (p + m) n)
  unfolding equal_run
  equal_run-split s p zero n k e =
      ap (equal_run blk lut s p) {x = k} {y = n} (omega arith)
      ∙ moved n {s' = s + 0} {p' = p + 0} (omega arith) (omega arith)
  equal_run-split s p (suc m) n zero e = absurd (omega arith)
  equal_run-split s p (suc m) n (suc k) e = ground (
    arith,
    equal_run-split (s + 1) (p + 1) m n k,
    moved n {s = s + 1 + m} {s' = s + suc m} {p = p + 1 + m} {p' = p + suc m} (omega arith)
        (omega arith),
  )

  equal_run_one : (s p : ℕ) → equal_run blk lut s p 1 ≡ same (blk s) (lut p)
  unfolding equal_run
  equal_run_one s p = ground arith

  pub equal_run-at :
      (s p n i : ℕ)
      → equal_run blk lut s p n ≡ true
      → i < n
      → same (blk (s + i)) (lut (p + i)) ≡ true
  equal_run-at s p n i e h = ground (
    arith,
    equal_run-split s p i (n - i) n,
    equal_run-split (s + i) (p + i) 1 (n - i - 1) (n - i),
    equal_run_one (s + i) (p + i),
  )

  -- The samples before `i` agree, and the one at `i` does not.
  pub record IsFirst (s p i : ℕ) : Type 0 where
    pub before : equal_run blk lut s p i ≡ true
    pub at : same (blk (s + i)) (lut (p + i)) ≡ false

  IsFirst-of_one :
      (s p lo hi : ℕ)
      → hi ≡ lo + 1
      → equal_run blk lut s p lo ≡ true
      → equal_run blk lut s p hi ≡ false
      → IsFirst s p lo
  IsFirst-of_one s p lo hi e good bad =
      ground (arith, equal_run-split s p lo 1 hi, equal_run_one (s + lo) (p + lo))

  -- With enough fuel the search ends, at the first sample of the chunk that differs.
  pub bisect-IsFirst :
      (fuel s p lo hi : ℕ)
      → lo < hi
      → hi - lo ≤ fuel
      → equal_run blk lut s p lo ≡ true
      → equal_run blk lut s p hi ≡ false
      → (i : ℕ) × (bisect blk lut fuel s p lo hi ≡ some i) × (i < hi) × IsFirst s p i
  unfolding bisect
  bisect-IsFirst zero s p lo hi h f good bad = absurd (omega arith)
  bisect-IsFirst (suc fuel) s p lo hi h f good bad = elim (dec_lt 1 (hi - lo)) [
    | no last ↦ (
      lo,
      rw (le→ltb 1 (hi - lo) (omega arith)),
      h,
      IsFirst-of_one s p lo hi (omega arith) good bad,
    )
    | yes wide ↦
        let mid = lo + (hi - lo) / 2 in
        let half = equal_run-split s p lo (mid - lo) mid (omega arith) in
        elim (Bool-cases (equal_run blk lut (s + lo) (p + lo) (mid - lo))) [
          | inl e ↦
              let (i, run, lt, first) =
                bisect-IsFirst fuel s p mid hi (omega arith) (omega arith) (ground arith) bad in
              (i, rw (lt→ltb 1 (hi - lo) wide, e) run, lt, first)
          | inr e ↦
              let (i, run, lt, first) =
                bisect-IsFirst fuel s p lo mid (omega arith) (omega arith) good (ground arith) in
              (i, rw (lt→ltb 1 (hi - lo) wide, e) run, omega arith, first)
        ]
  ]
