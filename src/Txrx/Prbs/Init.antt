-- ===== src/Txrx/Prbs/Init.antt =====
-- `prbs_init` fills both tables, and each is the other's inverse.
use native.Mathlib.Numerals.{add-one}
use zyndra.Base.{ℕ, zero, suc, ◌+◌, ◌/◌, ◌^◌, ◌≤◌, ◌<◌, ◌≡◌, ◌≢◌, refl, arith, subst, dec_lt}
use zyndra.Txrx.Prbs.{prbs_len, sample_of, Luts, update, init_loop, prbs_init, prbs_state_from_iq}
use zyndra.Txrx.Prbs.Period.{iter-ne-zero, iter, iter-lt, iter-suc, iter-distinct}
use zyndra.Txrx.Prbs.Register.{prbs_state_from_iq-sample_of}

-- The tables hold what entry `m` should have.
record Entry (t : Luts) (m : ℕ) : Type 0 where
  sample : t.lut m ≡ sample_of (iter m 1)
  position : t.pos (iter m 1) ≡ m

record Kept (t t' : Luts) (m : ℕ) : Type 0 where
  sample_kept : t'.lut m ≡ t.lut m
  position_kept : t'.pos (iter m 1) ≡ t.pos (iter m 1)

abbrev stored : Luts → ℕ → ℕ → Luts
stored t n state = record { lut = update t.lut n (sample_of state); pos = update t.pos state n }

stored-Entry : (t : Luts) (n : ℕ) → Entry (stored t n (iter n 1)) n
stored-Entry t n = ground arith

stored-Kept : (t : Luts) (n m : ℕ) → m < n → n < prbs_len → Kept t (stored t n (iter n 1)) m
stored-Kept t n m lt small = ground (arith, iter-distinct m n lt small)

loop-Kept :
    (k n m : ℕ) (t : Luts) → m < n → n + k ≤ prbs_len → Kept t (init_loop k n (iter n 1) t) m
unfolding init_loop
loop-Kept zero n m t lt small = record { sample_kept = refl; position_kept = refl }
loop-Kept (suc k) n m t lt small = ground (
  arith,
  iter-suc n 1,
  add-one n,
  stored-Kept t n m lt,
  loop-Kept k (suc n) m (stored t n (iter n 1)),
)

first-Entry :
    (k n : ℕ) (t : Luts) → n + suc k ≤ prbs_len → Entry (init_loop (suc k) n (iter n 1) t) n
unfolding init_loop
first-Entry k n t small = ground (
  arith,
  iter-suc n 1,
  add-one n,
  stored-Entry t n,
  loop-Kept k (suc n) n (stored t n (iter n 1)),
)

loop-Entry :
    (k n m : ℕ) (t : Luts)
    → n ≤ m
    → m < n + k
    → n + k ≤ prbs_len
    → Entry (init_loop k n (iter n 1) t) m
unfolding init_loop
loop-Entry zero n m t lo hi small = absurd (omega arith)
loop-Entry (suc k) n m t lo hi small = elim (dec_lt n m) [
  | yes later ↦
      ground (arith, iter-suc n 1, add-one n, loop-Entry k (suc n) m (stored t n (iter n 1)))
  | no now ↦
      subst (Entry (init_loop (suc k) n (iter n 1) t)) (omega arith) (first-Entry k n t small)
]

-- Each of the 65535 entries of the sample table is the sample of its state, and the position table
-- leads from that state back to the entry.
pub prbs_init-entries :
    (t : Luts) (n : ℕ)
    → n < prbs_len
    → ((prbs_init t).lut n ≡ sample_of (iter n 1)) × ((prbs_init t).pos (iter n 1) ≡ n)
unfolding prbs_init
prbs_init-entries t n h = (e.sample, e.position)
  where
    e : Entry (init_loop prbs_len 0 1 t) n
    e = unfold iter in loop-Entry prbs_len 0 n t (omega arith) (omega arith) (omega arith)

-- The receiver's lookup, the position of the state that a received sample gives, finds the entry that
-- was sent.
pub prbs_lookup-sent :
    (t : Luts) (n : ℕ)
    → n < prbs_len
    → let s = (prbs_init t).lut n in
      (prbs_init t).pos (prbs_state_from_iq (s.i / 2 ^ 4) (s.q / 2 ^ 4)) ≡ n
prbs_lookup-sent t n h =
    rw
      (
        (prbs_init-entries t n h).0,
        prbs_state_from_iq-sample_of (iter n 1) (iter-lt n 1 (omega arith)),
      )
      (prbs_init-entries t n h).1

-- That state is not 0.
pub prbs_state-ne-zero :
    (t : Luts) (n : ℕ)
    → n < prbs_len
    → let s = (prbs_init t).lut n in prbs_state_from_iq (s.i / 2 ^ 4) (s.q / 2 ^ 4) ≢ 0
prbs_state-ne-zero t n h =
    rw
      (
        (prbs_init-entries t n h).0,
        prbs_state_from_iq-sample_of (iter n 1) (iter-lt n 1 (omega arith)),
      )
      (iter-ne-zero n)
