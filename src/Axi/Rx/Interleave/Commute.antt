-- ===== src/Axi/Rx/Interleave/Commute.antt =====
-- A timer callback and an access of the reader commute, but for the order of the calls they make.
use mathlib.Core.List.Perm
use mathlib.Core.List.{Perm, perm_middle}
use native.Mathlib.Nat.{div-mul-le_self, div-le_self}
use zyndra.Base.{
  ℕ, ◌/◌, ◌%◌, ◌^◌, ◌<◌, ◌≡◌, refl, sym, ap, arith, Bool, true, false, List, [], ◌∷◌, if◌then◌else◌,
  ltb, add32, sub32, mul32, ◌&&◌, Bool-cases, inl, inr, subst,
}
use zyndra.Ring.{ringbuf_used}
use zyndra.Axi.State.{sync_for_cpu, Priv, Effect, wake_rx, wake_tx, timer_forward}
use zyndra.Axi.Timer.{timer, accept_blocks}
use zyndra.Axi.Read.{snap, ReadCall}
use zyndra.Axi.Rx.Interleave.{
  Pc, testing, snapping, jumping, subtracting, taking, measuring, peaking, stamping, invalidating,
  copying, advancing, done, micro,
}
use zyndra.Axi.Rx.Interleave.Order.{SameButOrder, SameButOrder-ind, reorder}

-- A reader that has made its overrun test, with a word to subtract.
abbrev pub IsPast : Pc → Type 0
IsPast testing = ⊥
IsPast snapping = Unit
IsPast (jumping lost new_rd) = lost < 2 ^ 32
IsPast (subtracting lost new_rd) = lost < 2 ^ 32
IsPast pc = Unit

ringbuf_used-word : (rd wr size : ℕ) → wr < 2 ^ 32 → ringbuf_used rd wr size < 2 ^ 32
unfolding ringbuf_used
ringbuf_used-word rd wr size h = ground arith

snap-word : (b wr size : ℕ) → wr < 2 ^ 32 → snap b wr size < 2 ^ 32
unfolding snap
snap-word b wr size h = omega (
  arith,
  ringbuf_used-word (size / 2) wr size h,
  div-mul-le_self (ringbuf_used (size / 2) wr size) b,
)

div-word : (x b : ℕ) → x < 2 ^ 32 → x / b < 2 ^ 32
div-word x b h = omega (arith, div-le_self x b)

module _ (b : ℕ) where
  -- Whether the callback counts a block.
  abbrev counts : ℕ → Priv → Bool
  counts wr p = ltb 0 p.rxbuf_size && ltb 0 (ringbuf_used p.timer_wr_ptr wr p.rxbuf_size / b)

  abbrev ticked : ℕ → Bool → Priv → Priv
  ticked wr go p =
      let new = ringbuf_used p.timer_wr_ptr wr p.rxbuf_size / b in
      record p {
        timer_wr_ptr =
            if go then add32 p.timer_wr_ptr (mul32 new b) % p.rxbuf_size else p.timer_wr_ptr;
        blocks_ready = if go then add32 p.blocks_ready new else p.blocks_ready;
        effects = timer_forward ∷ wake_tx ∷ (if go then wake_rx ∷ p.effects else p.effects);
      }

  timer-ticked : (wr : ℕ) (p : Priv) → timer b wr p ≡ ticked wr (counts wr p) p
  unfolding timer accept_blocks
  timer-ticked wr p = ground arith

  pub timer-SameButOrder :
      (wr : ℕ) {p q : Priv} → SameButOrder p q → SameButOrder (timer b wr p) (timer b wr q)
  timer-SameButOrder wr {p} =
      SameButOrder-ind (λ q. SameButOrder (timer b wr p) (timer b wr q))
        (λ es h.
          subst (λ t. SameButOrder t (timer b wr (record p { effects = es })))
            (sym (timer-ticked wr p))
            (subst (SameButOrder (ticked wr (counts wr p) p))
              (sym (timer-ticked wr (record p { effects = es }))) (go (counts wr p) es h)))
    where
      go :
          (g : Bool) (es : List Effect)
          → Perm p.effects es
          → SameButOrder (ticked wr g p) (ticked wr g (record p { effects = es }))
      go true es h = reorder (Perm.cons timer_forward (Perm.cons wake_tx (Perm.cons wake_rx h)))
      go false es h = reorder (Perm.cons timer_forward (Perm.cons wake_tx h))

  module _ (c : ReadCall) (word : c.wr_overrun < 2 ^ 32) where
    pub micro-IsPast : (pc : Pc) (p : Priv) → IsPast pc → IsPast (micro b c pc p).0
    unfolding micro
    micro-IsPast testing p h = elim h [ ]
    micro-IsPast snapping p h =
        ringbuf_used-word p.rd_ptr (snap b c.wr_overrun p.rxbuf_size) p.rxbuf_size
          (snap-word b c.wr_overrun p.rxbuf_size word)
    micro-IsPast (jumping lost new_rd) p h = h
    micro-IsPast (subtracting lost new_rd) p h = tt
    micro-IsPast (taking lost) p h = tt
    micro-IsPast (measuring lost) p h = tt
    micro-IsPast (peaking lost) p h = tt
    micro-IsPast (stamping lost) p h = tt
    micro-IsPast (invalidating lost) p h = tt
    micro-IsPast (copying lost) p h = elim (Bool-cases c.copied) [
      | inl e ↦ rw e tt
      | inr e ↦ rw e tt
    ]
    micro-IsPast (advancing lost) p h = tt
    micro-IsPast (done o) p h = tt

    pub micro-SameButOrder :
        (pc : Pc) {p q : Priv}
        → SameButOrder p q
        → ((micro b c pc p).0 ≡ (micro b c pc q).0)
          × SameButOrder (micro b c pc p).1 (micro b c pc q).1
    unfolding micro
    micro-SameButOrder pc {p} =
        SameButOrder-ind
          (λ q.
            ((micro b c pc p).0 ≡ (micro b c pc q).0)
            × SameButOrder (micro b c pc p).1 (micro b c pc q).1)
          (go pc)
      where
        go :
            (pc : Pc) (es : List Effect)
            → Perm p.effects es
            → ((micro b c pc p).0 ≡ (micro b c pc (record p { effects = es })).0)
              × SameButOrder (micro b c pc p).1 (micro b c pc (record p { effects = es })).1
        go testing es h = (refl, reorder h)
        go snapping es h = (refl, reorder h)
        go (jumping lost new_rd) es h = (refl, reorder h)
        go (subtracting lost new_rd) es h = (refl, reorder h)
        go (taking lost) es h = (refl, reorder h)
        go (measuring lost) es h = (refl, reorder h)
        go (peaking lost) es h = (refl, reorder h)
        go (stamping lost) es h = (refl, reorder h)
        go (invalidating lost) es h = (refl, reorder (Perm.cons _ h))
        go (copying lost) es h = (refl, reorder h)
        go (advancing lost) es h = (refl, reorder h)
        go (done o) es h = (refl, reorder h)

    blocks-commute :
        (g : Bool) (x k m : ℕ)
        → m < 2 ^ 32
        → (if g then add32 (sub32 x m) k else sub32 x m) ≡ sub32 (if g then add32 x k else x) m
    blocks-commute true x k m h = omega (arith, h)
    blocks-commute false x k m h = refl

    invalidating-commute :
        (g : Bool) (x : Effect) (es : List Effect)
        → Perm
            (timer_forward ∷ wake_tx ∷ (if g then wake_rx ∷ x ∷ es else x ∷ es))
            (x ∷ timer_forward ∷ wake_tx ∷ (if g then wake_rx ∷ es else es))
    invalidating-commute true x es = perm_middle (timer_forward ∷ wake_tx ∷ wake_rx ∷ []) es
    invalidating-commute false x es = perm_middle (timer_forward ∷ wake_tx ∷ []) es

    -- A callback just before a reader's access does what it does just after it.
    micro-ticked :
        (pc : Pc) (wr : ℕ) (g : Bool) (p : Priv)
        → IsPast pc
        → ((micro b c pc p).0 ≡ (micro b c pc (ticked wr g p)).0)
          × SameButOrder (ticked wr g (micro b c pc p).1) (micro b c pc (ticked wr g p)).1
    unfolding micro
    micro-ticked testing wr g p h = elim h [ ]
    micro-ticked snapping wr g p h = (refl, reorder Perm.rfl)
    micro-ticked (jumping lost new_rd) wr g p h = (refl, reorder Perm.rfl)
    micro-ticked (subtracting lost new_rd) wr g p h = (
      refl,
      record {
        history = (ticked wr g p).effects;
        same =
            ap (λ (k : ℕ). record (ticked wr g p) { blocks_ready = k })
              (sym (
                blocks-commute g p.blocks_ready (ringbuf_used p.timer_wr_ptr wr p.rxbuf_size / b)
                  (lost / b) (div-word lost b h)));
        order = Perm.rfl;
      },
    )
    micro-ticked (taking lost) wr g p h = (
      refl,
      record {
        history = (ticked wr g p).effects;
        same =
            ap (λ (k : ℕ). record (ticked wr g p) { blocks_ready = k })
              (sym (
                blocks-commute g p.blocks_ready (ringbuf_used p.timer_wr_ptr wr p.rxbuf_size / b)
                  (1) (omega arith)));
        order = Perm.rfl;
      },
    )
    micro-ticked (measuring lost) wr g p h = (refl, reorder Perm.rfl)
    micro-ticked (peaking lost) wr g p h = (refl, reorder Perm.rfl)
    micro-ticked (stamping lost) wr g p h = (refl, reorder Perm.rfl)
    micro-ticked (invalidating lost) wr g p h = (
      refl,
      reorder (invalidating-commute g (sync_for_cpu (add32 p.rxbuf_phys p.rd_ptr) b) p.effects),
    )
    micro-ticked (copying lost) wr g p h = (refl, reorder Perm.rfl)
    micro-ticked (advancing lost) wr g p h = (refl, reorder Perm.rfl)
    micro-ticked (done o) wr g p h = (refl, reorder Perm.rfl)

    counts-micro : (pc : Pc) (wr : ℕ) (p : Priv) → counts wr (micro b c pc p).1 ≡ counts wr p
    unfolding micro
    counts-micro testing wr p = refl
    counts-micro snapping wr p = refl
    counts-micro (jumping lost new_rd) wr p = refl
    counts-micro (subtracting lost new_rd) wr p = refl
    counts-micro (taking lost) wr p = refl
    counts-micro (measuring lost) wr p = refl
    counts-micro (peaking lost) wr p = refl
    counts-micro (stamping lost) wr p = refl
    counts-micro (invalidating lost) wr p = refl
    counts-micro (copying lost) wr p = refl
    counts-micro (advancing lost) wr p = refl
    counts-micro (done o) wr p = refl

    pub micro-timer :
        (pc : Pc) (wr : ℕ) (p : Priv)
        → IsPast pc
        → ((micro b c pc p).0 ≡ (micro b c pc (timer b wr p)).0)
          × SameButOrder (timer b wr (micro b c pc p).1) (micro b c pc (timer b wr p)).1
    micro-timer pc wr p h =
        rw (timer-ticked wr p, timer-ticked wr (micro b c pc p).1, counts-micro pc wr p)
          (micro-ticked pc wr (counts wr p) p h)
