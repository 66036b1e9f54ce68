-- ===== src/Ring/Blocks.antt =====
-- Rings whose size is a number of whole blocks: positions and distances count in blocks.
use native.Mathlib.Nat.{
  mod-eq_of_lt, mod-lt, add-mul-mod_self_left, div-add-mod, mod-add-mod, mod_self,
}
use zyndra.Base.{
  ℕ, ◌+◌, ◌-◌, ◌*◌, ◌/◌, ◌%◌, ◌^◌, ◌≤◌, ◌<◌, ◌≡◌, ap, ◌∙◌, arith, dec_le, leb, if◌then◌else◌,
  dec_lt, Bool-cases, inl, inr, le→leb, lt→leb, add32,
}
use zyndra.Ring.{ringbuf_used}
use zyndra.Ring.Distance.{ringbuf_used_of_le, ringbuf_used_of_lt}

pub mul-le-mul : (b x y : ℕ) → x ≤ y → x * b ≤ y * b
mul-le-mul b x y h = grind arith

module _ (b n : ℕ) (b_pos : 0 < b) (n_pos : 0 < n) where
  pub mul-lt : (x : ℕ) → x < n → x * b < n * b
  mul-lt x h = grind arith

  pub mul-mod : (x : ℕ) → x * b % (n * b) ≡ x % n * b
  mul-mod x =
      ap (λ t. t % (n * b)) {x = x * b} {y = x % n * b + n * b * (x / n)} split
      ∙ (add-mul-mod_self_left (x % n * b) (n * b) (x / n)
          ∙ mod-eq_of_lt (mul-lt (x % n) (mod-lt x n_pos)))
    where
      split : x * b ≡ x % n * b + n * b * (x / n)
      split = omega (arith, ap (λ (t : ℕ). t * b) (div-add-mod x n))

  pub mul-mod-lt : (x : ℕ) → x % n * b < n * b
  mul-mod-lt x = mul-lt (x % n) (mod-lt x n_pos)

  -- A block that starts in the ring ends in it.
  pub block-le : (x : ℕ) → x < n → x * b + b ≤ n * b
  block-le x h = grind arith

  mul-sub-mul : (i j : ℕ) → i ≤ j → j * b - i * b ≡ (j - i) * b
  mul-sub-mul i j h = omega (arith, ap (λ (t : ℕ). t * b) {x = j} {y = i + (j - i)} (omega arith))

  pub ringbuf_used-mul :
      (i j : ℕ)
      → i < n
      → j < n
      → n * b < 2 ^ 32
      → ringbuf_used (i * b) (j * b) (n * b) ≡ ringbuf_used i j n * b
  ringbuf_used-mul i j hi hj s = elim (dec_le i j) [
    | yes p ↦
        rw (ringbuf_used_of_le (i * b) (j * b) (n * b) (grind arith), ringbuf_used_of_le i j n p)
          (mul-sub-mul i j p)
    | no p ↦
        rw
          (
            ringbuf_used_of_lt (i * b) (j * b) (n * b) (grind arith) (grind arith) s,
            ringbuf_used_of_lt i j n (omega arith) (omega arith) (grind arith),
          )
          (omega (arith, mul-sub-mul i n (omega arith)))
  ]

-- Block numbers go round by one.
suc-mod : (x n : ℕ) → 0 < n → (x + 1) % n ≡ (if leb n (x % n + 1) then 0 else x % n + 1)
suc-mod x n pos = elim (dec_lt (x % n + 1) n) [
  | yes in_ring ↦ rw (lt→leb n (x % n + 1) in_ring, ← mod-add-mod x n 1) (mod-eq_of_lt in_ring)
  | no last ↦
      rw (le→leb n (x % n + 1) (omega arith), ← mod-add-mod x n 1)
        (ap (λ y. y % n) {x = x % n + 1} {y = n} (omega (arith, mod-lt x pos)) ∙ mod_self n)
]

step_back : (x n b : ℕ) → x < n → 0 < b → leb (n * b) (x * b + b) ≡ leb n (x + 1)
step_back x n b h pos = elim (dec_lt (x + 1) n) [
  | yes in_ring ↦
      rw (lt→leb n (x + 1) in_ring)
        (lt→leb (n * b) (x * b + b) (omega (arith, mul-lt b n pos (omega arith) (x + 1) in_ring)))
  | no last ↦ rw (le→leb n (x + 1) (omega arith)) (
      le→leb (n * b) (x * b + b)
        (omega (arith, ap (λ (k : ℕ). k * b) {x = n} {y = x + 1} (omega arith))))
]

-- One block further on in the ring.
pub next-block :
    (b n : ℕ)
    → 0 < b
    → 0 < n
    → (r : ℕ) → n * b < 2 ^ 31
    → (if leb (n * b) (add32 (r % n * b) b) then 0 else add32 (r % n * b) b) ≡ (r + 1) % n * b
next-block b n b_pos n_pos r fits =
    rw
      (
        mod-eq_of_lt {n = r % n * b + b} {m = 2 ^ 32}
            (omega (arith, block-le b n b_pos n_pos (r % n) (mod-lt r n_pos))),
        step_back (r % n) n b (mod-lt r n_pos) b_pos,
        suc-mod r n n_pos,
      )
      (elim (Bool-cases (leb n (r % n + 1))) [
        | inl e ↦ rw e (omega arith)
        | inr e ↦ rw e (omega arith)
      ])
