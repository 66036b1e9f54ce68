-- ===== src/Axi/Rx/Interleave/Atomic.antt =====
-- A read that timer callbacks interrupt is a read in one step: callbacks and a reader's accesses
-- commute.
use zyndra.Base.{
  ℕ, zero, suc, ◌-◌, ◌/◌, ◌^◌, ◌≤◌, ◌<◌, ◌≡◌, refl, sym, ap, ◌∙◌, arith, true, false, List, [], ◌∷◌,
  Option, none, some, if◌then◌else◌, Bool-cases, leb_int, inl, inr, subst,
}
use zyndra.Axi.State.{is_pos_int, Priv, Outcome, fail, ret, efault}
use zyndra.Axi.Timer.{timer, accept_blocks}
use zyndra.Axi.Read.{
  read, sizeof_rx_read, RxRead, ReadCall, deliver, check_overrun, skip_overrun, take_block,
  advance_rd,
}
use zyndra.Axi.Rx.Interleave.Order.{SameButOrder, SameButOrder-refl, SameButOrder-trans}
use zyndra.Axi.Rx.Interleave.Commute.{
  IsPast, timer-SameButOrder, micro-SameButOrder, micro-timer, micro-IsPast,
}
use zyndra.Axi.Rx.Interleave.{
  Pc, testing, taking, done, micro, alone, interleave, timers, before_first, callbacks, after_first,
  accesses,
}

module _ (b : ℕ) (c : ReadCall) (word : c.wr_overrun < 2 ^ 32) where
  alone-SameButOrder :
      (n : ℕ) {pc qc : Pc} {p q : Priv}
      → pc ≡ qc
      → SameButOrder p q
      → ((alone b c n (pc, p)).0 ≡ (alone b c n (qc, q)).0)
        × SameButOrder (alone b c n (pc, p)).1 (alone b c n (qc, q)).1
  unfolding alone
  alone-SameButOrder zero e h = (e, h)
  alone-SameButOrder (suc n) {pc} {qc} {p} {q} e h =
      let (same, order) = micro-SameButOrder b c word qc h in
      subst
        (λ oc.
          ((alone b c n (micro b c oc p)).0 ≡ (alone b c n (micro b c qc q)).0)
          × SameButOrder (alone b c n (micro b c oc p)).1 (alone b c n (micro b c qc q)).1)
        (sym e) (alone-SameButOrder n same order)

  alone-timer :
      (n : ℕ) (pc : Pc) (wr : ℕ) (p : Priv)
      → IsPast pc
      → ((alone b c n (pc, p)).0 ≡ (alone b c n (pc, timer b wr p)).0)
        × SameButOrder (timer b wr (alone b c n (pc, p)).1) (alone b c n (pc, timer b wr p)).1
  unfolding alone
  alone-timer zero pc wr p h = (refl, SameButOrder-refl (timer b wr p))
  alone-timer (suc n) pc wr p h =
      let (same, order) = micro-timer b c word pc wr p h in
      let (e, before) =
        alone-timer n (micro b c pc p).0 wr (micro b c pc p).1 (micro-IsPast b c word pc p h) in
      let (e', after) = alone-SameButOrder n same order in (e ∙ e', SameButOrder-trans before after)

  timers-SameButOrder :
      (wrs : List ℕ) {p q : Priv}
      → SameButOrder p q
      → SameButOrder (timers b wrs p) (timers b wrs q)
  unfolding timers
  timers-SameButOrder [] h = h
  timers-SameButOrder (wr ∷ wrs) h = timers-SameButOrder wrs (timer-SameButOrder b wr h)

  -- Past its overrun test, a reader gets on as if all callbacks came after it.
  interleave-IsPast :
      (sched : List (Option ℕ)) (pc : Pc) (p : Priv)
      → IsPast pc
      → ((alone b c (accesses sched) (pc, p)).0 ≡ (interleave b c sched (pc, p)).0)
        × SameButOrder
            (timers b (callbacks sched) (alone b c (accesses sched) (pc, p)).1)
            (interleave b c sched (pc, p)).1
  unfolding alone interleave callbacks accesses timers
  interleave-IsPast [] pc p h = (refl, SameButOrder-refl p)
  interleave-IsPast (none ∷ sched) pc p h =
      interleave-IsPast sched (micro b c pc p).0 (micro b c pc p).1 (micro-IsPast b c word pc p h)
  interleave-IsPast (some wr ∷ sched) pc p h =
      let (e, order) = alone-timer (accesses sched) pc wr p h in
      let (e', order') = interleave-IsPast sched pc (timer b wr p) h in
      (e ∙ e', SameButOrder-trans (timers-SameButOrder (callbacks sched) order) order')

  testing-IsPast : (p : Priv) → IsPast (micro b c testing p).0
  unfolding micro
  testing-IsPast p = elim (Bool-cases (leb_int (p.rxbuf_size / b) p.blocks_ready)) [
    | inl e ↦ rw e tt
    | inr e ↦ rw e tt
  ]

  interleave-alone :
      (sched : List (Option ℕ)) (p : Priv)
      → ((alone b c (accesses sched) (testing, timers b (before_first sched) p)).0
          ≡ (interleave b c sched (testing, p)).0)
        × SameButOrder
            (timers b
              (after_first sched)
              (alone b c (accesses sched) (testing, timers b (before_first sched) p)).1)
            (interleave b c sched (testing, p)).1
  unfolding alone interleave before_first after_first accesses timers
  interleave-alone [] p = (refl, SameButOrder-refl p)
  interleave-alone (none ∷ sched) p =
      interleave-IsPast sched (micro b c testing p).0 (micro b c testing p).1 (testing-IsPast p)
  interleave-alone (some wr ∷ sched) p = interleave-alone sched (timer b wr p)

  alone-done : (n : ℕ) (o : Outcome RxRead) (p : Priv) → alone b c n (done o, p) ≡ (done o, p)
  unfolding alone micro
  alone-done zero o p = refl
  alone-done (suc n) o p = alone-done n o p

  -- The end of `deliver`, from `atomic_dec` on.
  abbrev finish : ℕ → Priv → Outcome RxRead × Priv
  finish lost p =
      let p₂ = take_block b c p in
      if c.copied
      then (ret (record { rd = p₂.rd_ptr; hw_wr = c.wr_now; lost_bytes = lost }), advance_rd b p₂)
      else (fail efault, p₂)

  alone-finish :
      (n lost : ℕ) (p : Priv)
      → alone b c (suc (suc (suc (suc (suc (suc (suc n))))))) (taking lost, p)
        ≡ (done (finish lost p).0, (finish lost p).1)
  unfolding alone micro take_block advance_rd
  alone-finish n lost p = elim (Bool-cases c.copied) [
    | inl e ↦ rw e (alone-done n _ _)
    | inr e ↦ rw e (alone-done n _ _)
  ]

  alone-deliver :
      (n : ℕ) (p : Priv)
      → alone b c (suc (suc (suc (suc (suc (suc (suc (suc (suc (suc (suc n))))))))))) (testing, p)
        ≡ (done (deliver b c p).0, (deliver b c p).1)
  unfolding alone micro deliver check_overrun skip_overrun
  alone-deliver n p = elim (Bool-cases (leb_int (p.rxbuf_size / b) p.blocks_ready)) [
    | inl e ↦ rw e (alone-finish n _ _)
    | inr e ↦ rw e (alone-finish (suc (suc (suc n))) _ _)
  ]

  timer-closing : (wr : ℕ) (p : Priv) → (timer b wr p).closing ≡ p.closing
  unfolding timer accept_blocks
  timer-closing wr p = ground arith

  timers-closing : (wrs : List ℕ) (p : Priv) → (timers b wrs p).closing ≡ p.closing
  unfolding timers
  timers-closing [] p = refl
  timers-closing (wr ∷ wrs) p = timers-closing wrs (timer b wr p) ∙ timer-closing wr p

  read-deliver :
      (p : Priv)
      → sizeof_rx_read ≤ c.count
      → p.closing ≡ false
      → is_pos_int p.blocks_ready ≡ true
      → read b c p ≡ deliver b c p
  unfolding read
  read-deliver p size is_open ready = ground arith

  -- Whatever the timer's callbacks between its accesses, a reader that is given 11 accesses
  -- finishes, and it returns what `read` returns in one step at the moment of its overrun test,
  -- after the callbacks before that test. The state that it leaves is the one after that step and
  -- the later callbacks, but for the order of the calls in the history. At the overrun test the
  -- device is open and a block is ready, the caller's buffer has room for the answer, and the
  -- pointer that the overrun branch reads is a word.
  pub interleave-read :
      (sched : List (Option ℕ)) (p : Priv)
      → 11 ≤ accesses sched
      → sizeof_rx_read ≤ c.count
      → p.closing ≡ false
      → is_pos_int (timers b (before_first sched) p).blocks_ready ≡ true
      → ((interleave b c sched (testing, p)).0
          ≡ done (read b c (timers b (before_first sched) p)).0)
        × SameButOrder
            (timers b (after_first sched) (read b c (timers b (before_first sched) p)).1)
            (interleave b c sched (testing, p)).1
  interleave-read sched p enough size is_open ready =
      let q = timers b (before_first sched) p in
      let (same, order) = interleave-alone sched p in
      let e =
        ap (λ n. alone b c n (testing, q)) (omega (arith, enough))
        ∙ alone-deliver (accesses sched - 11) q in
      rw (read-deliver q size (timers-closing (before_first sched) p ∙ is_open) ready) (
        sym same ∙ ap (λ s. s.0) e,
        subst
            (λ s.
              SameButOrder (timers b (after_first sched) s.1) (interleave b c sched (testing, p)).1)
            e order,
      )
