-- ===== src/Receiver/Slots.antt =====
-- The pool's slots as a queue: what a round of the main loop does to the blocks that wait.
use native.Mathlib.Nat.{mod-lt, mod-add-mod}
use zyndra.Base.{
  subst, ℕ, suc, ◌+◌, ◌%◌, ◌^◌, ◌==◌, ◌≤◌, ◌<◌, ◌≡◌, ap, ◌∙◌, arith, refl, List, [], ◌∷◌, ◌++◌,
  length, ltb, if◌then◌else◌, length-append, add32, append-nil, Bool-cases, inl, inr,
}
use zyndra.Ring.{ringbuf_used}
use zyndra.Ring.Distance.{other_residue}
use zyndra.Txrx.Prbs.{update}
use zyndra.Receiver.Copy.{wrapped, copy_block-wrapped}
use zyndra.Receiver.{copy_block, Pool, fill, receive}

-- From slot `at + d` on, the slots hold the blocks of a list.
abbrev pub Holds : (ℕ → List ℕ) → ℕ → ℕ → ℕ → List (List ℕ) → Type 0
Holds slots cnt at d [] = Unit
Holds slots cnt at d (x ∷ q) = (slots ((at + d) % cnt) ≡ x) × Holds slots cnt at (d + 1) q

Holds-update :
    (slots : ℕ → List ℕ) (cnt at d k : ℕ) (q : List (List ℕ)) (x : List ℕ)
    → d + length q < cnt
    → cnt < 2 ^ 32
    → k ≡ (at + (d + length q)) % cnt
    → Holds slots cnt at d q
    → Holds (update slots k x) cnt at d (q ++ x ∷ [])
Holds-update slots cnt at d k [] x h s e v = (ground arith, tt)
Holds-update slots cnt at d k (y ∷ q) x h s e v = (
  ground (arith, other_residue at cnt d (d + suc (length q)), v.0),
  Holds-update slots cnt at (d + 1) k q x (omega arith) s
      (e
        ∙ ap (λ (t : ℕ). t % cnt) {x = at + (d + suc (length q))} {y = at + (d + 1 + length q)}
            (omega arith))
      v.1,
)

pub Holds-shift :
    (slots : ℕ → List ℕ) (cnt at n d : ℕ) (q : List (List ℕ))
    → Holds slots cnt at (d + n) q
    → Holds slots cnt ((at + n) % cnt) d q
Holds-shift slots cnt at n d [] v = tt
Holds-shift slots cnt at n d (x ∷ q) v = (
  ap slots (mod-add-mod (at + n) cnt d ∙ ap (λ t. t % cnt) {y = at + (d + n)} (omega arith)) ∙ v.0,
  Holds-shift slots cnt at n (d + 1) q
      (subst (λ k. Holds slots cnt at k q) {x = d + n + 1} {y = d + 1 + n} (omega arith) v.1),
)

module _ (cnt b size : ℕ) where
  -- What a round of the main loop puts into the pool.
  abbrev pub took : ℕ → (ℕ → ℕ) → Pool → List (List ℕ)
  took wr ring s =
      if ltb (ringbuf_used s.rd_ptr wr size) b
      then []
      else if s.slot_free == 0
      then []
      else wrapped ring size s.rd_ptr b ∷ []

  -- Slot `base` on holds the blocks of a queue, of which a sender holds the first `held`.
  pub record Stores (base held : ℕ) (s : Pool) (q : List (List ℕ)) : Type 0 where
    pub used : s.slot_used + held ≡ length q
    pub room : s.slot_free + length q ≤ cnt
    pub base_in : base < cnt
    pub in_at : s.in_nr ≡ (base + length q) % cnt
    pub rd_in : s.rd_ptr < size
    pub holds : Holds s.slots cnt base 0 q

  module _ (small : cnt < 2 ^ 32) (b_le : b ≤ size) (size_fits : size < 2 ^ 31) {base held : ℕ}
      {s : Pool} {q : List (List ℕ)} (v : Stores base held s q) where
    fill-Stores :
        (ring : ℕ → ℕ)
        → 0 < s.slot_free
        → Stores base held (fill cnt b size ring s) (q ++ copy_block ring size s.rd_ptr b ∷ [])
    unfolding fill
    fill-Stores ring free = record {
      used = omega (arith, length-append q (copy_block ring size s.rd_ptr b ∷ []), v.used);
      room = omega (arith, length-append q (copy_block ring size s.rd_ptr b ∷ []), v.room);
      base_in = v.base_in;
      in_at =
          ap (λ (t : ℕ). (t + 1) % cnt) v.in_at
          ∙ (mod-add-mod (base + length q) cnt 1
              ∙ ap (λ (t : ℕ). t % cnt) {x = base + length q + 1}
                  {y = base + length (q ++ copy_block ring size s.rd_ptr b ∷ [])}
                  (omega (arith, length-append q (copy_block ring size s.rd_ptr b ∷ []))));
      rd_in = mod-lt (add32 s.rd_ptr b) (omega (arith, v.rd_in));
      holds =
          Holds-update s.slots cnt base 0 s.in_nr q (copy_block ring size s.rd_ptr b)
            (omega (arith, v.room)) small
            (v.in_at
              ∙ ap (λ (t : ℕ). t % cnt) {x = base + length q} {y = base + (0 + length q)}
                  (omega arith))
            v.holds;
    }

    same-Stores :
        {t : Pool}
        → t.slot_used ≡ s.slot_used
        → t.slot_free ≡ s.slot_free
        → t.in_nr ≡ s.in_nr
        → t.slots ≡ s.slots
        → t.rd_ptr < size
        → Stores base held t q
    same-Stores u f i sl r = record {
      used = rw u v.used;
      room = rw f v.room;
      base_in = v.base_in;
      in_at = i ∙ v.in_at;
      rd_in = r;
      holds = rw sl v.holds;
    }

    -- A round of the main loop puts its block at the end of the queue.
    pub receive-Stores :
        (wr : ℕ) (ring : ℕ → ℕ)
        → wr < size
        → Stores base held (receive cnt b size wr ring s) (q ++ took wr ring s)
    unfolding receive
    receive-Stores wr ring wr_in = elim (Bool-cases (ltb (ringbuf_used s.rd_ptr wr size) b)) [
      | inl short ↦ rw (short, append-nil q) (same-Stores refl refl refl refl v.rd_in)
      | inr enough ↦ elim (Bool-cases (s.slot_free == 0)) [
        | inl full ↦ rw (enough, full, append-nil q) (same-Stores refl refl refl refl wr_in)
        | inr room ↦
            rw (enough, room, ← copy_block-wrapped ring size s.rd_ptr b v.rd_in b_le (omega arith))
              (fill-Stores ring (ground arith))
      ]
    ]

  -- A round of the main loop leaves the sender's position, and moves a slot from one semaphore to
  -- the other or none.
  pub receive_counts :
      (wr : ℕ) (ring : ℕ → ℕ) (s : Pool)
      → ((receive cnt b size wr ring s).out_nr ≡ s.out_nr)
        × ((receive cnt b size wr ring s).slot_free + (receive cnt b size wr ring s).slot_used
            ≡ s.slot_free + s.slot_used)
  unfolding receive fill
  receive_counts wr ring s = ground arith
