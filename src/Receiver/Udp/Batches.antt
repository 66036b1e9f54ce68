-- ===== src/Receiver/Udp/Batches.antt =====
-- The UDP sender takes blocks out of the pool in order, and holds its slots until they are sent.
use native.Mathlib.Nat.{mod-eq_of_lt, mod-lt, mod-add-mod}
use zyndra.Base.{
  ℕ, zero, suc, ◌+◌, ◌-◌, ◌%◌, ◌^◌, ◌==◌, ◌≤◌, ◌<◌, ◌≡◌, refl, ap, ap₂, sym, ℕ_discrete, ◌≢◌, ◌∙◌,
  subst, arith, List, [], ◌∷◌, ◌++◌, map, length, Option, none, some, length-append, append-nil,
  All, Bool-cases, inl, inr, false,
}
use zyndra.Receiver.Slots.{Holds, Holds-shift, took, Stores, receive-Stores, receive_counts}
use zyndra.Receiver.Udp.{
  udp_batch, Batch, Sender, take_slot, send_batch, post_slot, transmit_udp, receive_into,
}
use zyndra.Receiver.Udp.Given.{indices, indices-snoc, Holds-indices, given_all, IsFull, length-map}

take_slot-none : (cnt : ℕ) (s : Sender) → s.pool.slot_used ≡ 0 → take_slot cnt s ≡ none
unfolding take_slot
take_slot-none cnt s idle = ground (arith, idle)

module _ (cnt b size : ℕ) (small : cnt < 2 ^ 32) (cnt_pos : 0 < cnt) (size_pos : 0 < size)
    (b_le : b ≤ size) (size_fits : size < 2 ^ 31) where
  -- The pool as a queue, from slot `base` on; the sender points to its first slots.
  pub record Batches (base : ℕ) (s : Sender) (q : List (List ℕ)) : Type 0 where
    pub stores : Stores cnt b size base (length s.iovs) s.pool q
    pub total : s.pool.slot_free + s.pool.slot_used + length s.iovs + s.posts ≡ cnt
    pub out_at : s.pool.out_nr ≡ (base + length s.iovs) % cnt
    pub points : s.iovs ≡ indices cnt base 0 (length s.iovs)
    pub few : length s.iovs ≤ udp_batch

  post_slot-Batches :
      (base : ℕ) (s : Sender) (q : List (List ℕ)) (left : ℕ)
      → s.posts ≡ suc left
      → Batches base s q
      → Batches base (post_slot left s) q
  unfolding post_slot
  post_slot-Batches base s q left e v = record {
    stores = record {
      used = v.stores.used;
      room = omega (arith, v.stores.used, v.total, e);
      base_in = v.stores.base_in;
      in_at = v.stores.in_at;
      rd_in = v.stores.rd_in;
      holds = v.stores.holds;
    };
    total = omega (arith, v.total, e);
    out_at = v.out_at;
    points = v.points;
    few = v.few;
  }

  take_slot-Batches :
      (base : ℕ) (s : Sender) (q : List (List ℕ))
      → s.pool.slot_used ≢ 0
      → length s.iovs ≢ udp_batch
      → Batches base s q
      → (t : Sender) × (take_slot cnt s ≡ some t) × Batches base t q
  unfolding take_slot
  take_slot-Batches base s q more not_full v = (
    record s {
      pool = record s.pool { slot_used = s.pool.slot_used - 1; out_nr = (s.pool.out_nr + 1) % cnt };
      iovs = s.iovs ++ s.pool.out_nr ∷ [];
    },
    rw waiting refl,
    record {
      stores = record {
        used = omega (arith, v.stores.used, more, len);
        room = v.stores.room;
        base_in = v.stores.base_in;
        in_at = v.stores.in_at;
        rd_in = v.stores.rd_in;
        holds = v.stores.holds;
      };
      total = omega (arith, v.total, more, len);
      out_at =
          ap (λ (k : ℕ). (k + 1) % cnt) v.out_at
          ∙ (mod-add-mod (base + length s.iovs) cnt 1
              ∙ ap (λ (k : ℕ). k % cnt) {x = base + length s.iovs + 1}
                  {y = base + length (s.iovs ++ s.pool.out_nr ∷ [])} (omega (arith, len)));
      points = ap₂ (λ xs k. xs ++ k ∷ []) v.points v.out_at ∙ pointed;
      few = omega (arith, len, v.few, not_full);
    },
  )
    where
      waiting : (s.pool.slot_used == 0) ≡ false
      waiting = ground (arith, more)

      len : length (s.iovs ++ s.pool.out_nr ∷ []) ≡ suc (length s.iovs)
      len = omega (arith, length-append s.iovs (s.pool.out_nr ∷ []))

      pointed :
          indices cnt base 0 (length s.iovs) ++ (base + length s.iovs) % cnt ∷ []
          ≡ indices cnt base 0 (length (s.iovs ++ s.pool.out_nr ∷ []))
      pointed =
          ap (λ (k : ℕ). indices cnt base 0 (length s.iovs) ++ (base + k) % cnt ∷ [])
            {x = length s.iovs} {y = 0 + length s.iovs} (omega arith)
          ∙ (indices-snoc cnt base 0 (length s.iovs) ∙ ap (indices cnt base 0) (sym len))

  -- The datagrams of a batch are the first blocks of the queue.
  send_batch-Batches :
      (answer : Option ℕ) (base : ℕ) (s : Sender) (q : List (List ℕ))
      → s.posts ≡ 0
      → length s.iovs ≡ udp_batch
      → Batches base s q
      → (rest : List (List ℕ)) × (given_all (send_batch answer s).0 ++ rest ≡ q)
        × All IsFull (send_batch answer s).0
        × Batches ((base + udp_batch) % cnt) (send_batch answer s).1 rest
  unfolding send_batch
  send_batch-Batches answer base s q none_left full v =
      let (rest, e, len, w) =
        Holds-indices s.pool.slots cnt base 0 (length s.iovs) q (omega (arith, v.stores.used))
          v.stores.holds in
      (
        rest,
        ap (λ xs. xs ++ rest) (append-nil (map s.pool.slots s.iovs))
            ∙ (ap (λ is. map s.pool.slots is ++ rest) v.points ∙ e),
        (length-map s.pool.slots s.iovs ∙ full, tt),
        record {
          stores = record {
            used = omega (arith, v.stores.used, len);
            room = omega (arith, v.stores.room, len);
            base_in = mod-lt (base + udp_batch) cnt_pos;
            in_at =
                v.stores.in_at
                ∙ (ap (λ (k : ℕ). k % cnt) {x = base + length q}
                      {y = base + udp_batch + length rest} (omega (arith, len, full))
                    ∙ sym (mod-add-mod (base + udp_batch) cnt (length rest)));
            rd_in = v.stores.rd_in;
            holds = Holds-shift s.pool.slots cnt base udp_batch 0 rest (
                subst (λ k. Holds s.pool.slots cnt base k rest) {x = 0 + length s.iovs}
                  {y = 0 + udp_batch} (omega (arith, full)) w);
          };
          total = omega (arith, v.total, none_left, full);
          out_at =
              v.out_at
              ∙ (ap (λ (k : ℕ). (base + k) % cnt) full
                  ∙ (sym (mod-eq_of_lt (mod-lt (base + udp_batch) cnt_pos))
                      ∙ ap (λ (k : ℕ). k % cnt) {x = (base + udp_batch) % cnt}
                          {y = (base + udp_batch) % cnt + 0} (omega arith)));
          points = refl;
          few = omega arith;
        },
      )

  -- After a step: the datagrams are the front of the queue. Where the thread waits, less than a
  -- batch is in the pool.
  abbrev pub Moved : List (List ℕ) → Option (List Batch × Sender) → Type 0
  Moved q none = length q < udp_batch
  Moved q (some (xs, t)) =
      (base : ℕ) × (rest : List (List ℕ)) × (given_all xs ++ rest ≡ q)
      × All IsFull xs
      × Batches base t rest

  pub transmit_udp-Moved :
      (answer : Option ℕ) (base : ℕ) (s : Sender) (q : List (List ℕ)) (posts : ℕ)
      → s.posts ≡ posts
      → Batches base s q
      → Moved q (transmit_udp cnt answer posts s)
  unfolding transmit_udp
  transmit_udp-Moved answer base s q (suc left) e v =
      (base, q, refl, tt, post_slot-Batches base s q left e v)
  transmit_udp-Moved answer base s q zero e v = elim (Bool-cases (length s.iovs == udp_batch)) [
    | inl full ↦
        let (rest, sent, fulls, w) =
          send_batch-Batches answer base s q e (ground (arith, full)) v in
        rw full ((base + udp_batch) % cnt, rest, sent, fulls, w)
    | inr open_ ↦ elim (ℕ_discrete s.pool.slot_used 0) [
      | yes idle ↦
          rw (open_, take_slot-none cnt s idle) (ground (arith, v.stores.used, idle, open_))
      | no busy ↦
          let (t, took_it, w) = take_slot-Batches base s q busy (ground (arith, open_)) v in
          rw (open_, took_it) (base, q, refl, tt, w)
    ]
  ]

  pub receive_into-Batches :
      (base : ℕ) (s : Sender) (q : List (List ℕ)) (wr : ℕ) (ring : ℕ → ℕ)
      → wr < size
      → Batches base s q
      → Batches base (receive_into cnt b size wr ring s) (q ++ took cnt b size wr ring s.pool)
  unfolding receive_into
  receive_into-Batches base s q wr ring wr_in v =
      let (out, counts) = receive_counts cnt b size wr ring s.pool in
      record {
        stores = receive-Stores cnt b size small b_le size_fits v.stores wr ring wr_in;
        total = omega (arith, counts, v.total);
        out_at = out ∙ v.out_at;
        points = v.points;
        few = v.few;
      }
