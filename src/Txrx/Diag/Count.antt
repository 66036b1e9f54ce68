-- ===== src/Txrx/Diag/Count.antt =====
-- Each round of `diag_prbs` counts at most one error, and exactly the blocks that leave the sequence.
use zyndra.Base.{
  ℕ, ◌+◌, ◌/◌, ◌%◌, ◌<◌, ◌≡◌, refl, ap, ◌∙◌, arith, Bool, true, false, none, some, Bool-cases, inl,
  inr, ◌⊎◌, add64,
}
use zyndra.Txrx.Prbs.{prbs_len, Luts}
use zyndra.Txrx.Verify.{same, Check, matched, differs, no_fuel, check_block}
use zyndra.Txrx.Verify.Matches.{Agrees, Judged, check_block-Judged}
use zyndra.Txrx.Diag.{
  PrbsRun, Got, next_block, is_behind, catch_up, after_check, lock, check_at, or_else, prbs_step,
}

-- All errors so far, as the next line prints them.
abbrev pub counted : PrbsRun → ℕ
counted s = add64 s.total_errors s.errors

module _ (t : Luts) (b size : ℕ) where
  -- The block agrees with the sequence from the position on, nothing is counted and the position
  -- moves on; or it does not, one error is counted and the position is forgotten.
  abbrev pub Counts : ℕ → Got → PrbsRun → PrbsRun → Type 0
  Counts p g s s' =
      (Agrees g.block t.lut p (b / 4)
        × (s'.pos ≡ some ((p + b / 4) % prbs_len))
        × (counted s' ≡ counted s))
      ⊎ ((¬ Agrees g.block t.lut p (b / 4)) × (s'.pos ≡ none) × (counted s' ≡ add64 (counted s) 1))

  next_block-counted :
      (over : Bool) (s : PrbsRun)
      → let s' = (next_block t b size over s).0 in (s'.pos ≡ s.pos) × (counted s' ≡ counted s)
  unfolding next_block
  next_block-counted true s = (refl, omega arith)
  next_block-counted false s = (refl, refl)

  catch_up-counted :
      (g : Got) (s : PrbsRun)
      → let s' = (catch_up t b size g s).0 in (s'.pos ≡ s.pos) × (counted s' ≡ counted s)
  unfolding catch_up
  catch_up-counted g s = elim (Bool-cases (is_behind t b size g.answer)) [
    | inl behind ↦ rw behind (refl, refl)
    | inr close ↦ rw close (next_block-counted g.second_over (record s { catching = false }))
  ]

  after_check-Counts :
      (p : ℕ) (g : Got) (s : PrbsRun) (v : Check g.block t.lut)
      → Judged g.block t.lut p (b / 4) v
      → Counts p g s (after_check t b size g v s).0
  unfolding after_check
  after_check-Counts p g s (matched q) j =
      let next = next_block-counted g.second_over (record s { pos = some q }) in
      inl (j.0, next.0 ∙ ap some j.1, next.1)
  after_check-Counts p g s (differs i q) j =
      let next = catch_up-counted g (record s { errors = add64 s.errors 1; pos = none }) in
      inr ((λ all. differ ((p + i) % prbs_len) (all i j.0) j.2), next.0, next.1 ∙ omega arith)
    where
      differ : (k : ℕ) → same (g.block i) (t.lut k) ≡ true → same (g.block i) (t.lut k) ≡ false → ⊥
      differ k e e' = cc
  after_check-Counts p g s no_fuel j = absurd j

  -- A round that reads a block, with a position kept or found: the error count goes up by one
  -- exactly if some sample of the block is not that of the sequence from the position on. A block
  -- without an error moves the position to the sample after it, an error makes the next round look
  -- for a new position.
  pub prbs_step-Counts :
      (p : ℕ) (g : Got) (s : PrbsRun)
      → p < prbs_len
      → s.catching ≡ false
      → or_else t b size s.pos (lock t b size g) ≡ some p
      → Counts p g s (prbs_step t b size g s).0
  unfolding prbs_step check_at
  prbs_step-Counts p g s h reading at =
      rw (reading, at)
        (after_check-Counts p g (record s { catching = false })
          (check_block g.block t.lut p (b / 4)) (check_block-Judged g.block t.lut p (b / 4) h))
