-- ===== src/Txrx/Prbs/Period.antt =====
-- Started at 1 the register runs through all 65535 nonzero states before it returns to 1.
use zyndra.Base.{
  ℕ, zero, suc, ◌+◌, ◌-◌, ◌≤◌, ◌<◌, ◌≡◌, ◌≢◌, refl, sym, ap, ◌∙◌, arith, ◌==◌, if◌then◌else◌,
  ℕ_discrete,
}
use zyndra.Txrx.Prbs.{prbs_len, popcount, lfsr_next}
use zyndra.Txrx.Prbs.Tables.{parity12}
use zyndra.Txrx.Prbs.Register.{fast_step, lfsr_next-fast, lfsr_next_bounds, lfsr_next-injective}

-- `k` steps that must not meet the state 1; 0 if they do.
walk : ℕ → ℕ → ℕ
walk zero s = s
walk (suc k) s = let s' = fast_step s in walk k (if s' == 1 then 0 else s')

walk_end : walk 65534 1 ≡ 32768
unfolding walk fast_step parity12
walk_end = refl

last_step : lfsr_next 32768 ≡ 1
unfolding lfsr_next popcount
last_step = refl

walk-zero : (k : ℕ) → walk k 0 ≡ 0
unfolding walk fast_step parity12
walk-zero zero = refl
walk-zero (suc k) = walk-zero k

-- The state after `k` steps.
unfoldable pub iter : ℕ → ℕ → ℕ
iter zero s = s
iter (suc k) s = iter k (lfsr_next s)

walk-suc_one : (k s : ℕ) → fast_step s ≡ 1 → walk (suc k) s ≡ 0
unfolding walk
walk-suc_one k s e = rw e (walk-zero k)

walk-suc : (k s : ℕ) → fast_step s ≢ 1 → walk (suc k) s ≡ walk k (fast_step s)
unfolding walk
walk-suc k s ne = ap (walk k) (ground arith)

record Walked (k s : ℕ) : Type 0 where
  end : walk k s ≡ iter k s
  avoids : (j : ℕ) → 0 < j → j ≤ k → iter j s ≢ 1

avoids_suc :
    (k s : ℕ)
    → lfsr_next s ≢ 1
    → ((j : ℕ) → 0 < j → j ≤ k → iter j (lfsr_next s) ≢ 1)
    → (j : ℕ) → 0 < j
    → j ≤ suc k
    → iter j s ≢ 1
unfolding iter
avoids_suc k s miss h zero pos le = absurd (omega arith)
avoids_suc k s miss h (suc zero) pos le = miss
avoids_suc k s miss h (suc (suc j)) pos le = h (suc j) (omega arith) (omega arith)

walk-Walked : (k s : ℕ) → s < 65536 → walk k s ≢ 0 → Walked k s
unfolding iter
walk-Walked zero s h w = record {
  end = unfold walk in refl;
  avoids = λ j pos le. absurd (omega arith);
}
walk-Walked (suc k) s h w = elim (ℕ_discrete (lfsr_next s) 1) [
  | yes hit ↦ absurd (w (walk-suc_one k s (sym (lfsr_next-fast s h) ∙ hit)))
  | no miss ↦
      let same : walk (suc k) s ≡ walk k (lfsr_next s) =
        walk-suc k s (λ e. miss (lfsr_next-fast s h ∙ e))
        ∙ ap (walk k) (sym (lfsr_next-fast s h)) in
      let ih = walk-Walked k (lfsr_next s) (lfsr_next_bounds s h).1 (λ z. w (same ∙ z)) in
      record { end = same ∙ ih.end; avoids = avoids_suc k s miss ih.avoids }
]

pub iter-lt : (k s : ℕ) → s < 65536 → iter k s < 65536
unfolding iter
iter-lt zero s h = h
iter-lt (suc k) s h = iter-lt k (lfsr_next s) (lfsr_next_bounds s h).1

pub iter-suc : (k s : ℕ) → iter (suc k) s ≡ lfsr_next (iter k s)
unfolding iter
iter-suc zero s = refl
iter-suc (suc k) s = iter-suc k (lfsr_next s)

iter-add : (j k s : ℕ) → iter (j + k) s ≡ iter j (iter k s)
unfolding iter
iter-add j zero s = ap (λ n. iter n s) {x = j + 0} {y = j} (omega arith)
iter-add j (suc k) s =
    ap (λ n. iter n s) {x = j + suc k} {y = suc (j + k)} (omega arith) ∙ iter-add j k (lfsr_next s)

iter-injective : (k s t : ℕ) → s < 65536 → t < 65536 → iter k s ≡ iter k t → s ≡ t
unfolding iter
iter-injective zero s t hs ht e = e
iter-injective (suc k) s t hs ht e = lfsr_next-injective s t hs ht (
    iter-injective k (lfsr_next s) (lfsr_next t) (lfsr_next_bounds s hs).1 (lfsr_next_bounds t ht).1
      e)

cycle : Walked 65534 1
cycle = walk-Walked 65534 1 (omega arith) (λ z. absurd (omega (arith, sym walk_end ∙ z)))

-- The states after fewer than 65535 steps from 1 are all distinct.
pub iter-distinct : (i j : ℕ) → i < j → j < prbs_len → iter i 1 ≢ iter j 1
iter-distinct i j lt le e = cycle.avoids (j - i) (omega arith) (omega arith) (
    sym (
      iter-injective i 1 (iter (j - i) 1) (omega arith) (iter-lt (j - i) 1 (omega arith))
        (e ∙ (ap (λ n. iter n 1) {x = j} {y = i + (j - i)} (omega arith) ∙ iter-add i (j - i) 1))))

-- The sequence has period 65535: that many steps lead from 1 back to 1, and no fewer.
pub iter_period : (iter prbs_len 1 ≡ 1) × ((j : ℕ) → 0 < j → j < prbs_len → iter j 1 ≢ 1)
iter_period = (
  iter-suc 65534 1 ∙ (ap lfsr_next (sym cycle.end ∙ walk_end) ∙ last_step),
  λ j pos le. cycle.avoids j pos (omega arith),
)

lfsr_next-zero : lfsr_next 0 ≡ 0
unfolding lfsr_next popcount
lfsr_next-zero = refl

iter-zero : (k : ℕ) → iter k 0 ≡ 0
unfolding iter
iter-zero zero = refl
iter-zero (suc k) = ap (iter k) lfsr_next-zero ∙ iter-zero k

-- No state of the sequence is 0.
pub iter-ne-zero : (k : ℕ) → iter k 1 ≢ 0
iter-ne-zero k e =
    absurd (omega (arith, iter-injective k 1 0 (omega arith) (omega arith) (e ∙ sym (iter-zero k))))
