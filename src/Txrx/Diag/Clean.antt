-- ===== src/Txrx/Diag/Clean.antt =====
-- What `diag_prbs` says of a stream: nothing of one that follows the sequence, and an error for a
-- block that leaves it.
use zyndra.Base.{
  ℕ, ◌+◌, ◌/◌, ◌%◌, ◌^◌, ◌==◌, ◌<◌, ◌≡◌, refl, sym, ap, ◌∙◌, subst, arith, Bool, true, false, List,
  [], ◌∷◌, ◌++◌, Option, none, some, if◌then◌else◌, add64, All, ne→==,
}
use zyndra.Txrx.Prbs.{prbs_len, PrbsIq, Luts, prbs_init, prbs_state_from_iq}
use zyndra.Txrx.Prbs.Init.{prbs_lookup-sent, prbs_state-ne-zero}
use zyndra.Txrx.Verify.{same, Check, matched, differs, no_fuel, check_block}
use zyndra.Txrx.Verify.Matches.{Judged, check_block-Judged}
use zyndra.Txrx.Diag.{
  PrbsRun, PrbsLine, prbs_start, Got, num_samples, next_block, after_check, lock, check_at,
  prbs_step, prbs_run,
}

same_refl : (a : PrbsIq) → same a a ≡ true
same_refl a = ground arith

same-eq : {a b : PrbsIq} → a ≡ b → same a b ≡ true
same-eq {a} {b} e = subst (λ c. same a c ≡ true) e (same_refl a)

ne_same : {a b : PrbsIq} → a ≡ b → same a b ≡ false → ⊥
ne_same {a} {b} e h =
    subst (λ (v : Bool). elim v [ true ↦ Unit | false ↦ ⊥ ]) (sym (same-eq e) ∙ h) tt

All-append : {A : Type 0} (P : A → Type 0) (xs ys : List A) → All P xs → All P ys → All P (xs ++ ys)
All-append P [] ys a b = b
All-append P (x ∷ xs) ys a b = (a.0, All-append P xs ys a.1 b)

-- A line with no error on it.
abbrev pub IsQuiet : PrbsLine → Type 0
IsQuiet l = (l.errors_now ≡ 0) × (l.errors_all ≡ 0)

module _ (t₀ : Luts) (b size : ℕ) where
  abbrev tables : Luts
  tables = prbs_init t₀

  abbrev samples : ℕ
  samples = num_samples tables b size

  -- A block holds the sequence from position `p` on.
  abbrev pub Carries : ℕ → Got → Type 0
  Carries p g = (k : ℕ) → k < b / 4 → g.block k ≡ (prbs_init t₀).lut ((p + k) % prbs_len)

  -- Each block goes on where the one before it ends.
  abbrev pub InSequence : ℕ → List Got → Type 0
  InSequence p [] = Unit
  InSequence p (g ∷ gs) = Carries p g × InSequence ((p + b / 4) % prbs_len) gs

  -- The position after some blocks.
  abbrev pub end_of : ℕ → List Got → ℕ
  end_of p [] = p
  end_of p (g ∷ gs) = end_of ((p + b / 4) % prbs_len) gs

  -- The position that the lock finds from a sample.
  abbrev found : PrbsIq → Option ℕ
  found a =
      let st = prbs_state_from_iq (a.i / 2 ^ 4) (a.q / 2 ^ 4) in
      if st == 0 then none else some (tables.pos st)

  found-sent : (p : ℕ) → p < prbs_len → found (tables.lut p) ≡ some p
  found-sent p h =
      rw
        (ne→== (prbs_state_from_iq ((tables.lut p).i / 2 ^ 4) ((tables.lut p).q / 2 ^ 4)) 0
          (prbs_state-ne-zero t₀ p h))
        (ap some (prbs_lookup-sent t₀ p h))

  lock-Carries :
      (p : ℕ) (g : Got) → p < prbs_len → 0 < b / 4 → Carries p g → lock tables b size g ≡ some p
  unfolding lock
  lock-Carries p g h pos c =
      ap found (c 0 pos ∙ ap tables.lut {x = (p + 0) % prbs_len} {y = p} (omega arith))
      ∙ found-sent p h

  matches :
      (p : ℕ) (g : Got)
      → p < prbs_len
      → Carries p g
      → check_block g.block tables.lut p samples ≡ matched ((p + b / 4) % prbs_len)
  matches p g h c =
      judged (check_block g.block tables.lut p samples)
        (check_block-Judged g.block tables.lut p samples h)
    where
      judged :
          (v : Check g.block tables.lut)
          → Judged g.block tables.lut p samples v
          → v ≡ matched ((p + b / 4) % prbs_len)
      judged (matched q) j = ap matched j.1
      judged (differs i q) j = absurd (ne_same (c i j.0) j.2)
      judged no_fuel j = absurd j

  -- No error is counted, and the next block is expected at position `p`.
  pub record IsClean (p : ℕ) (s : PrbsRun) : Type 0 where
    pub place : s.pos ≡ some p
    pub now : s.errors ≡ 0
    pub all : s.total_errors ≡ 0
    pub reading : s.catching ≡ false

  next_block-IsClean :
      (over : Bool) (p : ℕ) (s : PrbsRun)
      → IsClean p s
      → IsClean p (next_block tables b size over s).0
        × All IsQuiet (next_block tables b size over s).1
  unfolding next_block
  next_block-IsClean true p s w = (
    record { place = w.place; now = refl; all = none_yet; reading = w.reading },
    ((w.now, none_yet), tt),
  )
    where
      none_yet : add64 s.total_errors s.errors ≡ 0
      none_yet = ground (arith, w.now, w.all)
  next_block-IsClean false p s w =
      (record { place = w.place; now = w.now; all = w.all; reading = w.reading }, tt)

  -- A round with the next block of the sequence, at the position that is kept or found.
  check_at-IsClean :
      (p : ℕ) (g : Got) (s : PrbsRun)
      → p < prbs_len
      → Carries p g
      → s.errors ≡ 0
      → s.total_errors ≡ 0
      → s.catching ≡ false
      → let r = check_at tables b size g (some p) s in
        IsClean ((p + b / 4) % prbs_len) r.0 × All IsQuiet r.1
  unfolding check_at after_check
  check_at-IsClean p g s h c now all reading = rw (matches p g h c) (
      next_block-IsClean g.second_over ((p + b / 4) % prbs_len)
        (record s { pos = some ((p + b / 4) % prbs_len) })
        (record { place = refl; now = now; all = all; reading = reading }))

  prbs_step-IsClean :
      (p : ℕ) (g : Got) (s : PrbsRun)
      → p < prbs_len
      → Carries p g
      → IsClean p s
      → let r = prbs_step tables b size g s in
        IsClean ((p + b / 4) % prbs_len) r.0 × All IsQuiet r.1
  unfolding prbs_step
  prbs_step-IsClean p g s h c w =
      rw (w.reading, w.place)
        (check_at-IsClean p g (record s { pos = some p; catching = false }) h c w.now w.all refl)

  rest-IsClean :
      (p : ℕ) (gs : List Got) (s : PrbsRun)
      → p < prbs_len
      → InSequence p gs
      → IsClean p s
      → let r = prbs_run tables b size gs s in IsClean (end_of p gs) r.0 × All IsQuiet r.1
  unfolding prbs_run
  rest-IsClean p [] s h q w = (w, tt)
  rest-IsClean p (g ∷ gs) s h q w =
      let one = prbs_step-IsClean p g s h q.0 w in
      let rest =
        rest-IsClean ((p + b / 4) % prbs_len) gs (prbs_step tables b size g s).0 (omega arith) q.1
          one.0 in
      (
        rest.0,
        All-append IsQuiet (prbs_step tables b size g s).1
            (prbs_run tables b size gs (prbs_step tables b size g s).0).1 one.1 rest.1,
      )

  first-IsClean :
      (p : ℕ) (g : Got)
      → p < prbs_len
      → 0 < b / 4
      → Carries p g
      → let r = prbs_step tables b size g prbs_start in
        IsClean ((p + b / 4) % prbs_len) r.0 × All IsQuiet r.1
  unfolding prbs_step
  first-IsClean p g h pos c =
      rw (lock-Carries p g h pos c) (check_at-IsClean p g prbs_start h c refl refl refl)

  -- When the blocks, from the first one on, carry the sequence without a gap, each at least one
  -- sample long, then no error is ever counted or printed, whichever position the sequence starts
  -- at, and the position expected next is the one after the last block.
  pub prbs_run-IsClean :
      (p : ℕ) (g : Got) (gs : List Got)
      → p < prbs_len
      → 0 < b / 4
      → InSequence p (g ∷ gs)
      → let r = prbs_run tables b size (g ∷ gs) prbs_start in
        IsClean (end_of p (g ∷ gs)) r.0 × All IsQuiet r.1
  unfolding prbs_run
  prbs_run-IsClean p g gs h pos q =
      let one = first-IsClean p g h pos q.0 in
      let rest =
        rest-IsClean ((p + b / 4) % prbs_len) gs (prbs_step tables b size g prbs_start).0
          (omega arith) q.1 one.0 in
      (
        rest.0,
        All-append IsQuiet (prbs_step tables b size g prbs_start).1
            (prbs_run tables b size gs (prbs_step tables b size g prbs_start).0).1 one.1 rest.1,
      )
