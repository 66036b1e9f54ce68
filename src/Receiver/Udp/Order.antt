-- ===== src/Receiver/Udp/Order.antt =====
-- The datagrams of the UDP sender, in every order of steps of the two threads.
use native.Mathlib.Nat.{mod-eq_of_lt}
use zyndra.Base.{
  ℕ, ◌^◌, ◌≤◌, ◌<◌, ◌≡◌, refl, ap, sym, ◌∙◌, arith, List, [], ◌∷◌, ◌++◌, length, none, some,
  append-nil, Option, append_assoc, All, Option-cases, inl, inr, subst, ◌≢◌, ◌⊎◌,
}
use zyndra.Receiver.{empty_pool}
use zyndra.Receiver.Slots.{took}
use zyndra.Receiver.Udp.{
  Batch, Sender, transmit_udp, Event, receives, transmits, receive_into, run, udp_batch,
}
use zyndra.Receiver.Udp.Batches.{Batches, Moved, transmit_udp-Moved, receive_into-Batches}
use zyndra.Receiver.Udp.Given.{given_all, given_all-append, IsFull, All-IsFull-append}

-- The sender before its first step.
abbrev pub idle : (ℕ → List ℕ) → ℕ → Sender
idle slots buf_cnt = record { pool = empty_pool slots buf_cnt; iovs = []; posts = 0 }

module _ (cnt b size : ℕ) where
  -- The events' pointers lie in the ring.
  abbrev pub InRing : Event cnt b size → Type 0
  InRing (receives wr ring) = wr < size
  InRing (transmits answer) = Unit

  -- What the main loop puts into the pool in an order of steps.
  unfoldable pub accepted : List (Event cnt b size) → Sender → List (List ℕ)
  accepted [] s = []
  accepted (receives wr ring ∷ es) s =
      took cnt b size wr ring s.pool ++ accepted es (receive_into cnt b size wr ring s)
  accepted (transmits answer ∷ es) s = elim (transmit_udp cnt answer s.posts s) [
    | none ↦ accepted es s
    | some (xs, t) ↦ accepted es t
  ]

  run-none :
      (answer : Option ℕ) (es : List (Event cnt b size)) (s : Sender)
      → transmit_udp cnt answer s.posts s ≡ none
      → (run cnt b size (transmits answer ∷ es) s ≡ run cnt b size es s)
        × (accepted (transmits answer ∷ es) s ≡ accepted es s)
  unfolding run accepted
  run-none answer es s e = (cc, cc)

  run-some :
      (answer : Option ℕ) (es : List (Event cnt b size)) (s : Sender) {xs : List Batch} {t : Sender}
      → transmit_udp cnt answer s.posts s ≡ some (xs, t)
      → (run cnt b size (transmits answer ∷ es) s
          ≡ (xs ++ (run cnt b size es t).0, (run cnt b size es t).1))
        × (accepted (transmits answer ∷ es) s ≡ accepted es t)
  unfolding run accepted
  run-some answer es s e = (cc, cc)

module _ (cnt b size : ℕ) (small : cnt < 2 ^ 32) (cnt_pos : 0 < cnt) (size_pos : 0 < size)
    (b_le : b ≤ size) (size_fits : size < 2 ^ 31) where
  abbrev Holding : ℕ → Sender → List (List ℕ) → Type 0
  Holding = Batches cnt b size small cnt_pos size_pos b_le size_fits

  -- The blocks of the queue are sent in front of those that are taken.
  Sends : List (Event cnt b size) → Sender → List (List ℕ) → Type 0
  Sends es s q =
      (rest : List (List ℕ)) × (base : ℕ) × (given_all (run cnt b size es s).0 ++ rest
        ≡ q ++ accepted cnt b size es s)
      × All IsFull (run cnt b size es s).0
      × Holding base (run cnt b size es s).1 rest

  run-none-Sends :
      (answer : Option ℕ) (es : List (Event cnt b size)) (s : Sender) (q : List (List ℕ))
      → transmit_udp cnt answer s.posts s ≡ none
      → Sends es s q
      → Sends (transmits answer ∷ es) s q
  unfolding Sends
  run-none-Sends answer es s q e sends =
      let (runs, takes) = run-none cnt b size answer es s e in rw (runs, takes) sends

  run-some-Sends :
      (answer : Option ℕ) (es : List (Event cnt b size)) (s t : Sender) (xs : List Batch)
      (rest q : List (List ℕ))
      → transmit_udp cnt answer s.posts s ≡ some (xs, t)
      → given_all xs ++ rest ≡ q
      → All IsFull xs
      → Sends es t rest
      → Sends (transmits answer ∷ es) s q
  unfolding Sends
  run-some-Sends answer es s t xs rest q e front full (left, base, sent, fulls, w) =
      let (runs, takes) = run-some cnt b size answer es s e in
      rw (runs, takes)
        (
          left,
          base,
          ap (λ ys. ys ++ left) (given_all-append xs (run cnt b size es t).0)
              ∙ (append_assoc (given_all xs) (given_all (run cnt b size es t).0) left
                  ∙ (ap (λ ys. given_all xs ++ ys) sent
                      ∙ (sym (append_assoc (given_all xs) rest (accepted cnt b size es t))
                          ∙ ap (λ ys. ys ++ accepted cnt b size es t) front))),
          All-IsFull-append xs (run cnt b size es t).0 full fulls,
          w,
        )

  run-Holding :
      (es : List (Event cnt b size)) (base : ℕ) (s : Sender) (q : List (List ℕ))
      → All (InRing cnt b size) es
      → Holding base s q
      → Sends es s q
  unfolding run accepted Sends
  run-Holding [] base s q ok v = (q, base, sym (append-nil q), tt, v)
  run-Holding (receives wr ring ∷ es) base s q ok v =
      let (rest, base', e, fulls, w) =
        run-Holding es base (receive_into cnt b size wr ring s)
          (q ++ took cnt b size wr ring s.pool) ok.1
          (receive_into-Batches cnt b size small cnt_pos size_pos b_le size_fits base s q wr ring
            ok.0 v) in
      (
        rest,
        base',
        e
            ∙ append_assoc q (took cnt b size wr ring s.pool)
                (accepted cnt b size es (receive_into cnt b size wr ring s)),
        fulls,
        w,
      )
  run-Holding (transmits answer ∷ es) base s q ok v =
      elim (Option-cases (transmit_udp cnt answer s.posts s)) [
        | inl waits ↦ run-none-Sends answer es s q waits (run-Holding es base s q ok.1 v)
        | inr ((xs, t), went) ↦
            let (base', rest, front, full, w) =
              subst (Moved cnt b size small cnt_pos size_pos b_le size_fits q) went (
                transmit_udp-Moved cnt b size small cnt_pos size_pos b_le size_fits answer base s q
                  s.posts refl v) in
            run-some-Sends answer es s t xs rest q went front full
              (run-Holding es base' t rest ok.1 w)
      ]

  -- In every order of steps of the two threads from the start, and whatever `sendmmsg` answers, which
  -- the code does not look at: each call is given a whole batch, and the datagrams given are the
  -- blocks that the main loop took from the FPGA's ring, in order, with none left out, given twice or
  -- overwritten while a batch is put together. The sender waits only with less than a batch in the
  -- pool.
  pub run_udp-accepted :
      (es : List (Event cnt b size)) (slots : ℕ → List ℕ) (answer : Option ℕ)
      → All (InRing cnt b size) es
      → let r = run cnt b size es (idle slots cnt) in
        (rest : List (List ℕ)) × (given_all r.0 ++ rest ≡ accepted cnt b size es (idle slots cnt))
        × All IsFull r.0
        × ((transmit_udp cnt answer r.1.posts r.1 ≢ none) ⊎ (length rest < udp_batch))
  unfolding empty_pool Sends
  run_udp-accepted es slots answer ok =
      let (rest, base, e, fulls, w) = run-Holding es 0 (idle slots cnt) [] ok start in
      (rest, e, fulls, waits rest base w)
    where
      start : Holding 0 (idle slots cnt) []
      start = record {
        stores = record {
          used = refl;
          room = omega arith;
          base_in = cnt_pos;
          in_at = sym (mod-eq_of_lt cnt_pos);
          rd_in = size_pos;
          holds = tt;
        };
        total = omega arith;
        out_at = sym (mod-eq_of_lt cnt_pos);
        points = refl;
        few = omega arith;
      }

      end : Sender
      end = (run cnt b size es (idle slots cnt)).1

      waits :
          (rest : List (List ℕ)) (base : ℕ)
          → Holding base end rest
          → (transmit_udp cnt answer end.posts end ≢ none) ⊎ (length rest < udp_batch)
      waits rest base w = elim (Option-cases (transmit_udp cnt answer end.posts end)) [
        | inl waiting ↦ inr (
            subst (Moved cnt b size small cnt_pos size_pos b_le size_fits rest) waiting (
              transmit_udp-Moved cnt b size small cnt_pos size_pos b_le size_fits answer base end
                rest end.posts refl w))
        | inr (x, went) ↦ inl (λ e. cc)
      ]
