-- ===== src/Txrx/Tx/Depth.antt =====
-- The size of the TX ring that is mapped.
use native.Mathlib.Nat.{lt-div-mul-add, div-mul-le_self, mul-mod_left}
use zyndra.Base.{
  ℕ, ◌+◌, ◌-◌, ◌*◌, ◌/◌, ◌%◌, ◌^◌, ◌≤◌, ◌<◌, ◌≡◌, ◌⊎◌, inl, inr, arith, true, refl, ap, ◌∙◌, mul32,
  sub32, add32, dec_lt, lt→ltb, le→ltb,
}
use zyndra.Txrx.Tx.{effective_size}

rounded-eq :
    (samples b : ℕ)
    → 0 < b
    → samples * 4 + b ≤ 2 ^ 32
    → mul32 (sub32 (add32 (mul32 samples 4) b) 1 / b) b ≡ (samples * 4 + b - 1) / b * b
rounded-eq samples b pos small =
    ap (λ (n : ℕ). mul32 (n / b) b) {y = samples * 4 + b - 1} (omega arith)
    ∙ omega (arith, div-mul-le_self (samples * 4 + b - 1) b)

-- A positive depth, with the block size, the ring and the depth in bytes within 32 bits and the
-- ring a whole number of blocks, gives a whole number of blocks that fits the ring: the least that
-- holds the depth, or the whole ring if that is too small.
pub effective_size_lem :
    (samples b size : ℕ)
    → 0 < b
    → size < 2 ^ 32
    → size % b ≡ 0
    → samples * 4 + b ≤ 2 ^ 32
    → let e = effective_size true samples b size in
      (e ≤ size) × (e % b ≡ 0) × ((e ≡ size) ⊎ ((samples * 4 ≤ e) × (e < samples * 4 + b)))
unfolding effective_size
effective_size_lem samples b size pos fits whole small = elim (dec_lt size e) [
  | yes larger ↦ rw (rounded, lt→ltb size e larger) (omega arith, whole, inl refl)
  | no inside ↦
      rw (rounded, le→ltb size e (omega arith))
        (
          omega arith,
          mul-mod_left ((samples * 4 + b - 1) / b) b,
          inr (
            omega (arith, lt-div-mul-add {a = samples * 4 + b - 1} pos),
            omega (arith, div-mul-le_self (samples * 4 + b - 1) b),
          ),
        )
]
  where
    e : ℕ
    e = (samples * 4 + b - 1) / b * b

    rounded : mul32 (sub32 (add32 (mul32 samples 4) b) 1 / b) b ≡ e
    rounded = rounded-eq samples b pos small
