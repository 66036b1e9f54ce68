-- ===== src/Txrx/Verify/Matches.antt =====
-- The verdict on a block: all samples agree with the sequence, or the first that does not is named.
use zyndra.Base.{
  ℕ, zero, suc, ◌+◌, ◌-◌, ◌%◌, ◌≤◌, ◌<◌, ◌≡◌, refl, ◌∙◌, arith, true, false, min, dec_lt,
  Bool-cases, inl, inr, lt→ltb, le→ltb,
}
use zyndra.Txrx.Prbs.{prbs_len, PrbsIq}
use zyndra.Txrx.Verify.{
  same, equal_run, Check, matched, differs, no_fuel, report, check_loop, check_block,
}
use zyndra.Txrx.Verify.Bisect.{equal_run-at, bisect-IsFirst}

module _ (blk lut : ℕ → PrbsIq) where
  -- The first `n` samples are those of the sequence from position `p` on.
  abbrev pub Agrees : ℕ → ℕ → Type 0
  Agrees p n = (k : ℕ) → k < n → same (blk k) (lut ((p + k) % prbs_len)) ≡ true

  -- What each verdict on a block of `n` samples means.
  abbrev pub Judged : ℕ → ℕ → Check blk lut → Type 0
  Judged p n (matched q) = Agrees p n × (q ≡ (p + n) % prbs_len)
  Judged p n (differs i q) =
      (i < n)
      × Agrees p i
      × (same (blk i) (lut ((p + i) % prbs_len)) ≡ false)
      × (q ≡ (p + i) % prbs_len)
  Judged p n no_fuel = ⊥

  same_moved : {j k a b : ℕ} → j ≡ k → a ≡ b → same (blk j) (lut a) ≡ same (blk k) (lut b)
  same_moved e e' = λ i. same (blk (e i)) (lut (e' i))

  -- A run that agrees in the table extends the agreement.
  Agrees-extend :
      (p s c q : ℕ)
      → q ≡ (p + s) % prbs_len
      → q + c ≤ prbs_len
      → Agrees p s
      → equal_run blk lut s q c ≡ true
      → Agrees p (s + c)
  Agrees-extend p s c q e fits old run k h = elim (dec_lt k s) [
    | yes before ↦ old k before
    | no after ↦
        same_moved {j = k} {k = s + (k - s)} {a = (p + k) % prbs_len} {b = q + (k - s)}
          (omega arith) (omega arith)
        ∙ equal_run-at blk lut s q c (k - s) run (omega arith)
  ]

  check_loop-Judged :
      (fuel s p q n : ℕ)
      → n - s < fuel
      → s ≤ n
      → q ≡ (p + s) % prbs_len
      → Agrees p s
      → Judged p n (check_loop blk lut fuel s q n)
  unfolding check_loop report
  check_loop-Judged zero s p q n f le e good = absurd (omega arith)
  check_loop-Judged (suc fuel) s p q n f le e good = elim (dec_lt s n) [
    | no all ↦ rw (le→ltb s n (omega arith)) (λ k h. good k (omega arith), omega arith)
    | yes more ↦ elim (Bool-cases (equal_run blk lut s q (min (prbs_len - q) (n - s)))) [
      | inl run ↦
          rw (lt→ltb s n more, run)
            (check_loop-Judged fuel (s + chunk) p ((q + chunk) % prbs_len) n (omega arith)
              (omega arith) (omega arith) (Agrees-extend p s chunk q e (omega arith) good run))
      | inr stop ↦
          rw (lt→ltb s n more, stop)
            (let (i, found, lt, first) =
                bisect-IsFirst blk lut (chunk + 1) s q 0 chunk (omega arith) (omega arith)
                  (unfold equal_run in refl) stop in
              rw found (
                omega arith,
                Agrees-extend p s i q e (omega arith) good first.before,
                same_moved {j = s + i} {k = s + i} {a = (p + (s + i)) % prbs_len} {b = q + i} refl
                      (omega arith)
                    ∙ first.at,
                omega arith,
              ))
    ]
  ]
    where
      chunk : ℕ
      chunk = min (prbs_len - q) (n - s)

  -- The check of a block always ends, and its verdict is right: it reports a match exactly with the
  -- samples of the sequence from `p` on, and else the first sample that differs and its position.
  pub check_block-Judged : (p n : ℕ) → p < prbs_len → Judged p n (check_block blk lut p n)
  unfolding check_block
  check_block-Judged p n h =
      check_loop-Judged (n + 1) 0 p p n (omega arith) (omega arith) (omega arith)
        (λ k lt. absurd (omega arith))
