-- ===== src/Receiver/Copy.antt =====
-- The copy of a block follows the ring round its end.
use native.Mathlib.Nat.{mod-eq_of_lt, add-mod_right}
use zyndra.Base.{
  ℕ, zero, suc, ◌+◌, ◌-◌, ◌%◌, ◌^◌, ◌≤◌, ◌<◌, ◌≡◌, refl, ap, ap₂, sym, ◌∙◌, arith, List, [], ◌∷◌,
  ◌++◌, dec_lt, sub32, lt→ltb, le→ltb,
}
use zyndra.Receiver.{bytes_at, copy_block}

-- The bytes of the ring from a position on, one by one, each position taken modulo the size.
unfoldable pub wrapped : (ℕ → ℕ) → ℕ → ℕ → ℕ → List ℕ
wrapped ring size pos zero = []
wrapped ring size pos (suc n) = ring (pos % size) ∷ wrapped ring size (pos + 1) n

straight :
    (ring : ℕ → ℕ) (size pos n : ℕ) → pos + n ≤ size → wrapped ring size pos n ≡ bytes_at ring pos n
unfolding wrapped bytes_at
straight ring size pos zero h = refl
straight ring size pos (suc n) h =
    rw
      (
        mod-eq_of_lt {n = pos} {m = size} (omega arith),
        straight ring size (pos + 1) n (omega arith),
      )
      refl

moved :
    (ring : ℕ → ℕ) (size n : ℕ) {p q : ℕ} → p ≡ q → wrapped ring size p n ≡ wrapped ring size q n
moved ring size n e = ap (λ k. wrapped ring size k n) e

wrapped-append :
    (ring : ℕ → ℕ) (size pos m n k : ℕ)
    → m + n ≡ k
    → wrapped ring size pos k ≡ wrapped ring size pos m ++ wrapped ring size (pos + m) n
unfolding wrapped
wrapped-append ring size pos zero n k e =
    ap (wrapped ring size pos) {x = k} {y = n} (omega arith) ∙ moved ring size n (omega arith)
wrapped-append ring size pos (suc m) n zero e = absurd (omega arith)
wrapped-append ring size pos (suc m) n (suc k) e =
    ap (λ t. ring (pos % size) ∷ t)
      (wrapped-append ring size (pos + 1) m n k (omega arith)
        ∙ ap (λ t. wrapped ring size (pos + 1) m ++ t) (moved ring size n (omega arith)))

past_end :
    (ring : ℕ → ℕ) (size pos n : ℕ)
    → pos + n ≤ size
    → wrapped ring size (pos + size) n ≡ bytes_at ring pos n
unfolding wrapped bytes_at
past_end ring size pos zero h = refl
past_end ring size pos (suc n) h =
    rw (add-mod_right pos size, mod-eq_of_lt {n = pos} {m = size} (omega arith))
      (ap (λ t. ring pos ∷ t)
        (moved ring size n {q = pos + 1 + size} (omega arith)
          ∙ past_end ring size (pos + 1) n (omega arith)))

-- For a position in the ring and a block no longer than the ring, the copy is the block's bytes one
-- by one, each at its position modulo the size of the ring.
pub copy_block-wrapped :
    (ring : ℕ → ℕ) (size rd_ptr n : ℕ)
    → rd_ptr < size
    → n ≤ size
    → size < 2 ^ 32
    → copy_block ring size rd_ptr n ≡ wrapped ring size rd_ptr n
unfolding copy_block
copy_block-wrapped ring size rd_ptr n h k s = elim (dec_lt (size - rd_ptr) n) [
  | yes round ↦
      rw (before, lt→ltb (size - rd_ptr) n round)
        (sym (
          wrapped-append ring size rd_ptr (size - rd_ptr) (n - (size - rd_ptr)) n (omega arith)
          ∙ ap₂ (λ a c. a ++ c) (straight ring size rd_ptr (size - rd_ptr) (omega arith))
              (moved ring size (n - (size - rd_ptr)) {q = 0 + size} (omega arith)
                ∙ past_end ring size 0 (n - (size - rd_ptr)) (omega arith))))
  | no fits ↦
      rw (before, le→ltb (size - rd_ptr) n (omega arith))
        (sym (straight ring size rd_ptr n (omega arith)))
]
  where
    before : sub32 size rd_ptr ≡ size - rd_ptr
    before = omega arith
