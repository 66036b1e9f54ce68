-- ===== src/Receiver/Fifo.antt =====
-- The pool is a queue of blocks between the two threads.
use native.Mathlib.Nat.{mod-eq_of_lt, mod-lt, mod-add-mod}
use zyndra.Base.{
  subst, ℕ, suc, ◌+◌, ◌-◌, ◌%◌, ◌^◌, ◌==◌, ◌≤◌, ◌<◌, ◌≡◌, refl, ap, sym, ◌∙◌, arith, List, [], ◌∷◌,
  ◌++◌, length, none, some, add32, append-nil, append_assoc, All, false,
}
use zyndra.Receiver.Slots.{Holds-shift, took, Stores, receive-Stores, receive_counts}
use zyndra.Receiver.{Pool, receive, transmit, Event, receives, transmits, run, empty_pool}

module _ (cnt b size : ℕ) where
  -- The events' pointers lie in the ring.
  abbrev pub InRing : Event cnt b size → Type 0
  InRing (receives wr ring) = wr < size
  InRing transmits = Unit

  -- What the main loop puts into the pool in an order of rounds.
  unfoldable pub accepted : List (Event cnt b size) → Pool → List (List ℕ)
  accepted [] s = []
  accepted (receives wr ring ∷ es) s =
      took cnt b size wr ring s ++ accepted es (receive cnt b size wr ring s)
  accepted (transmits ∷ es) s = elim (transmit cnt b size s) [
    | none ↦ accepted es s
    | some (x, t) ↦ accepted es t
  ]

module _ (cnt b size : ℕ) (small : cnt < 2 ^ 32) (cnt_pos : 0 < cnt) (size_pos : 0 < size)
    (b_le : b ≤ size) (size_fits : size < 2 ^ 31) where
  -- The pool as a queue, the next block to send first.
  pub record Represents (s : Pool) (q : List (List ℕ)) : Type 0 where
    pub stores : Stores cnt b size s.out_nr 0 s q
    pub total : s.slot_free + s.slot_used ≡ cnt

  pub receive-Represents :
      (wr : ℕ) (ring : ℕ → ℕ) (s : Pool) (q : List (List ℕ))
      → wr < size
      → Represents s q
      → Represents (receive cnt b size wr ring s) (q ++ took cnt b size wr ring s)
  receive-Represents wr ring s q wr_in v =
      let (out, counts) = receive_counts cnt b size wr ring s in
      record {
        stores =
            subst
              (λ k.
                Stores cnt b size k 0 (receive cnt b size wr ring s)
                  (q ++ took cnt b size wr ring s))
              (sym out) (receive-Stores cnt b size small b_le size_fits v.stores wr ring wr_in);
        total = counts ∙ v.total;
      }

  pub transmit-Represents :
      (s : Pool) (x : List ℕ) (q : List (List ℕ))
      → Represents s (x ∷ q)
      → (t : Pool) × (transmit cnt b size s ≡ some (x, t)) × Represents t q
  unfolding transmit
  transmit-Represents s x q v = (
    record s {
      slot_used = s.slot_used - 1;
      slot_free = s.slot_free + 1;
      out_nr = (s.out_nr + 1) % cnt;
      send_cnt = add32 s.send_cnt 1;
    },
    rw (waiting, front) refl,
    record {
      stores = record {
        used = omega (arith, w.used);
        room = omega (arith, w.used, v.total);
        base_in = mod-lt (s.out_nr + 1) cnt_pos;
        in_at =
            w.in_at
            ∙ (ap (λ (t : ℕ). t % cnt) {x = s.out_nr + suc (length q)} {y = s.out_nr + 1 + length q}
                  (omega arith)
                ∙ sym (mod-add-mod (s.out_nr + 1) cnt (length q)));
        rd_in = w.rd_in;
        holds = Holds-shift s.slots cnt s.out_nr 1 0 q w.holds.1;
      };
      total = omega (arith, w.used, v.total);
    },
  )
    where
      w : Stores cnt b size s.out_nr 0 s (x ∷ q)
      w = v.stores

      waiting : (s.slot_used == 0) ≡ false
      waiting = ground (arith, w.used)

      front : s.slots s.out_nr ≡ x
      front =
          ap s.slots (
            sym (mod-eq_of_lt w.base_in)
            ∙ ap (λ (t : ℕ). t % cnt) {x = s.out_nr} {y = s.out_nr + 0} (omega arith))
          ∙ w.holds.0

  pub transmit-empty : (s : Pool) → Represents s [] → transmit cnt b size s ≡ none
  unfolding transmit
  transmit-empty s v = ground (arith, v.stores.used)

  pub empty_pool-Represents : (slots : ℕ → List ℕ) → Represents (empty_pool slots cnt) []
  unfolding empty_pool
  empty_pool-Represents slots = record {
    stores = record {
      used = refl;
      room = omega arith;
      base_in = cnt_pos;
      in_at = sym (mod-eq_of_lt cnt_pos);
      rd_in = size_pos;
      holds = tt;
    };
    total = omega arith;
  }

  -- The blocks of a queue are sent in front of those that are taken.
  Sends : List (Event cnt b size) → Pool → List (List ℕ) → Type 0
  Sends es s q =
      (rest : List (List ℕ)) × ((run cnt b size es s).0 ++ rest ≡ q ++ accepted cnt b size es s)
      × Represents (run cnt b size es s).1 rest

  run-none :
      (es : List (Event cnt b size)) (s : Pool)
      → transmit cnt b size s ≡ none
      → (run cnt b size (transmits ∷ es) s ≡ run cnt b size es s)
        × (accepted cnt b size (transmits ∷ es) s ≡ accepted cnt b size es s)
  unfolding run accepted
  run-none es s e = (cc, cc)

  run-some :
      (es : List (Event cnt b size)) (s : Pool) {x : List ℕ} {t : Pool}
      → transmit cnt b size s ≡ some (x, t)
      → (run cnt b size (transmits ∷ es) s ≡ (x ∷ (run cnt b size es t).0, (run cnt b size es t).1))
        × (accepted cnt b size (transmits ∷ es) s ≡ accepted cnt b size es t)
  unfolding run accepted
  run-some es s e = (cc, cc)

  run-none-Sends :
      (es : List (Event cnt b size)) (s : Pool) (q : List (List ℕ))
      → transmit cnt b size s ≡ none
      → Sends es s q
      → Sends (transmits ∷ es) s q
  unfolding Sends
  run-none-Sends es s q e sends = let (runs, takes) = run-none es s e in rw (runs, takes) sends

  run-some-Sends :
      (es : List (Event cnt b size)) (s : Pool) (x : List ℕ) (t : Pool) (q : List (List ℕ))
      → transmit cnt b size s ≡ some (x, t)
      → Sends es t q
      → Sends (transmits ∷ es) s (x ∷ q)
  unfolding Sends
  run-some-Sends es s x t q e (rest, sends, v) =
      let (runs, takes) = run-some es s e in rw (runs, takes) (rest, ap (λ xs. x ∷ xs) sends, v)

  run-Represents :
      (es : List (Event cnt b size)) (s : Pool) (q : List (List ℕ))
      → All (InRing cnt b size) es
      → Represents s q
      → Sends es s q
  unfolding run accepted Sends
  run-Represents [] s q ok v = (q, sym (append-nil q), v)
  run-Represents (receives wr ring ∷ es) s q ok v =
      let (rest, e, w) =
        run-Represents es (receive cnt b size wr ring s) (q ++ took cnt b size wr ring s) ok.1
          (receive-Represents wr ring s q ok.0 v) in
      (
        rest,
        e
            ∙ append_assoc q (took cnt b size wr ring s)
                (accepted cnt b size es (receive cnt b size wr ring s)),
        w,
      )
  run-Represents (transmits ∷ es) s [] ok v =
      run-none-Sends es s [] (transmit-empty s v) (run-Represents es s [] ok.1 v)
  run-Represents (transmits ∷ es) s (x ∷ q) ok v =
      let (t, sent, v') = transmit-Represents s x q v in
      run-some-Sends es s x t q sent (run-Represents es t q ok.1 v')

  -- In every order of rounds of the two threads from the start, while the client stays, the blocks
  -- sent are the blocks that the main loop took from the FPGA's ring, in order, with none lost,
  -- doubled or mixed; what is taken and not yet sent is as many blocks as the pool counts in use.
  pub run-accepted :
      (es : List (Event cnt b size)) (slots : ℕ → List ℕ)
      → All (InRing cnt b size) es
      → (rest : List (List ℕ)) × ((run cnt b size es (empty_pool slots cnt)).0 ++ rest
          ≡ accepted cnt b size es (empty_pool slots cnt))
        × ((run cnt b size es (empty_pool slots cnt)).1.slot_used ≡ length rest)
  unfolding Sends
  run-accepted es slots ok =
      let (rest, e, w) =
        run-Represents es (empty_pool slots cnt) [] ok (empty_pool-Represents slots) in
      (rest, e, omega (arith, w.stores.used))
