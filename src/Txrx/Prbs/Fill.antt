-- ===== src/Txrx/Prbs/Fill.antt =====
-- `prbs_fill_block` terminates and copies the sequence without a gap, going round at its end.
use native.Mathlib.Nat.{mod-eq_of_lt}
use zyndra.Base.{
  ℕ, zero, suc, ◌+◌, ◌-◌, ◌%◌, ◌≤◌, ◌<◌, ◌≡◌, refl, sym, ap, ◌∙◌, arith, List, [], ◌∷◌, ◌++◌, some,
  min, ap₂, lt→ltb,
}
use zyndra.Txrx.Prbs.{prbs_len, PrbsIq, copy, fill_loop, prbs_fill_block}

-- The next `n` samples of the sequence from position `p` on.
abbrev pub sequence : (ℕ → PrbsIq) → ℕ → ℕ → List PrbsIq
sequence lut p zero = []
sequence lut p (suc n) = lut (p % prbs_len) ∷ sequence lut (p + 1) n

module _ (lut : ℕ → PrbsIq) where
  sequence-add :
      (p m n k : ℕ) → m + n ≡ k → sequence lut p k ≡ sequence lut p m ++ sequence lut (p + m) n
  sequence-add p zero n k e =
      ap₂ (sequence lut) {x = p} {y = p + 0} {u = k} {v = n} (omega arith) (omega arith)
  sequence-add p (suc m) n zero e = absurd (omega arith)
  sequence-add p (suc m) n (suc k) e =
      ap (λ t. lut (p % prbs_len) ∷ t)
        (sequence-add (p + 1) m n k (omega arith)
          ∙ ap (λ q. sequence lut (p + 1) m ++ sequence lut q n) {x = p + 1 + m} {y = p + suc m}
              (omega arith))

  sequence-mod : (p q n : ℕ) → p % prbs_len ≡ q % prbs_len → sequence lut p n ≡ sequence lut q n
  sequence-mod p q zero e = refl
  sequence-mod p q (suc n) e =
      ap₂ (λ r t. lut r ∷ t) e (sequence-mod (p + 1) (q + 1) n (omega arith))

  copy-sequence : (p n : ℕ) → p + n ≤ prbs_len → copy lut p n ≡ sequence lut p n
  unfolding copy
  copy-sequence p zero h = refl
  copy-sequence p (suc n) h =
      rw (mod-eq_of_lt {n = p} {m = prbs_len} (omega arith), copy-sequence (p + 1) n (omega arith))

  fill_loop_lem :
      (fuel remaining p : ℕ)
      → remaining < fuel
      → p < prbs_len
      → fill_loop lut fuel remaining p ≡ some (sequence lut p remaining, (p + remaining) % prbs_len)
  unfolding fill_loop
  fill_loop_lem zero remaining p h in_table = absurd (omega arith)
  fill_loop_lem (suc fuel) zero p h in_table = ground (arith, sequence lut p 0)
  fill_loop_lem (suc fuel) (suc r) p h in_table =
      rw
        (
          lt→ltb 0 (suc r) (omega arith),
          fill_loop_lem fuel (suc r - chunk) ((p + chunk) % prbs_len) (omega arith) (omega arith),
        )
        (ap₂ (λ xs q. some (xs, q)) samples position)
    where
      chunk : ℕ
      chunk = min (prbs_len - p) (suc r)

      position : ((p + chunk) % prbs_len + (suc r - chunk)) % prbs_len ≡ (p + suc r) % prbs_len
      position = omega arith

      samples :
          copy lut p chunk ++ sequence lut ((p + chunk) % prbs_len) (suc r - chunk)
          ≡ sequence lut p (suc r)
      samples =
          rw
            (
              copy-sequence p chunk (omega arith),
              sequence-mod ((p + chunk) % prbs_len) (p + chunk) (suc r - chunk) (omega arith),
            )
            (sym (sequence-add p chunk (suc r - chunk) (suc r) (omega arith)))

  -- The call ends, stores the next `n` samples of the endless sequence, and leaves the position after
  -- them.
  pub prbs_fill_block_lem :
      (n p : ℕ)
      → p < prbs_len
      → prbs_fill_block lut n p ≡ some (sequence lut p n, (p + n) % prbs_len)
  unfolding prbs_fill_block
  prbs_fill_block_lem n p h = fill_loop_lem (n + 1) n p (omega arith) h

  -- Two calls in a row continue the sequence: they store what one call for both would.
  pub prbs_fill_block-continues :
      (m n p : ℕ) {xs ys : List PrbsIq} {p' p'' : ℕ}
      → p < prbs_len
      → prbs_fill_block lut m p ≡ some (xs, p')
      → prbs_fill_block lut n p' ≡ some (ys, p'')
      → prbs_fill_block lut (m + n) p ≡ some (xs ++ ys, p'')
  prbs_fill_block-continues m n p {xs} {ys} {p'} {p''} h first second = ground (
    arith,
    prbs_fill_block_lem m p h,
    prbs_fill_block_lem n p',
    prbs_fill_block_lem (m + n) p h,
    sequence-add p m n (m + n) refl,
    sequence-mod p' (p + m) n,
  )
