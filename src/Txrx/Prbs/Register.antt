-- ===== src/Txrx/Prbs/Register.antt =====
-- One step of the shift register is a permutation of the 16-bit states, and a sample determines its
-- state.
use zyndra.Base.{
  ℕ, ◌+◌, ◌*◌, ◌/◌, ◌%◌, ◌^◌, ◌<◌, ◌≡◌, refl, sym, ap, ◌∙◌, arith, true, ◌==◌, ◌&&◌, bit_and,
  bit_or, bit_xor, ==_iff, all_below_runs, all_below_runs_sound, ltb,
}
use zyndra.Txrx.Prbs.{bitrev12, lfsr_next, prbs_state_from_iq, sample_of}
use zyndra.Txrx.Prbs.Tables.{
  bitrev12-bitrev12, bitrev12-lt, bit_and_fff, bit_and_low, bit_or_fields, parity12,
  popcount-parity,
}

-- The step, with the parities folded.
unfoldable pub fast_step : ℕ → ℕ
fast_step s = bit_and (bit_or (s * 2) (bit_xor (parity12 (s / 16)) (parity12 (s / 2 % 4)))) 0xffff

two_bits : all_below_runs 256 256 (λ x. bit_and (x / 2) 0x3 == x / 2 % 4) ≡ true
unfolding all_below_runs
two_bits = refl

two_bits_lem : (x : ℕ) → x < 65536 → bit_and (x / 2) 0x3 ≡ x / 2 % 4
two_bits_lem x h = (==_iff _ _).0 (
    all_below_runs_sound 256 256 (λ x. bit_and (x / 2) 0x3 == x / 2 % 4) x two_bits (omega arith) h)

pub lfsr_next-fast : (s : ℕ) → s < 65536 → lfsr_next s ≡ fast_step s
unfolding lfsr_next fast_step
lfsr_next-fast s h = rw (
  bit_and_fff (s / 16) (omega arith),
  two_bits_lem s h,
  popcount-parity (s / 16) (omega arith),
  popcount-parity (s / 2 % 4) (omega arith),
)

-- The state before: the bit that was shifted out is found from the parities.
unfoldable pub back : ℕ → ℕ
back t =
    let low = t / 2 in
    low + 32768 * bit_xor (t % 2) (bit_xor (parity12 (low / 16)) (parity12 (low / 2 % 4)))

back_table :
    all_below_runs 256 256 (λ s. (back (fast_step s) == s) && ltb (fast_step s) 65536) ≡ true
unfolding all_below_runs back fast_step parity12
back_table = refl

pub lfsr_next_bounds : (s : ℕ) → s < 65536 → (back (lfsr_next s) ≡ s) × (lfsr_next s < 65536)
lfsr_next_bounds s h = rw (lfsr_next-fast s h) (
    ground (
      arith,
      all_below_runs_sound 256 256 (λ s. (back (fast_step s) == s) && ltb (fast_step s) 65536) s
          back_table (omega arith) h,
    ))

-- Distinct states have distinct successors.
pub lfsr_next-injective : (s t : ℕ) → s < 65536 → t < 65536 → lfsr_next s ≡ lfsr_next t → s ≡ t
lfsr_next-injective s t hs ht e =
    sym (lfsr_next_bounds s hs).0 ∙ (ap back e ∙ (lfsr_next_bounds t ht).0)

-- The receiver finds the state of the register from the sample that was sent.
pub prbs_state_from_iq-sample_of :
    (s : ℕ) → s < 65536 → prbs_state_from_iq ((sample_of s).i / 2 ^ 4) ((sample_of s).q / 2 ^ 4) ≡ s
unfolding prbs_state_from_iq sample_of
prbs_state_from_iq-sample_of s h =
    rw
      (
        bit_and_fff (s / 16) (omega arith),
        (bit_and_low s h).0,
        i_back,
        q_back,
        bit_and_fff (s / 16) (omega arith),
        bit_and_fff (bitrev12 (s % 4096)) q_lt,
        bitrev12-bitrev12 (s % 4096) (omega arith),
        (bit_and_low (s % 4096) (omega arith)).1,
        low4,
      )
      (bit_or_fields s h)
  where
    q_lt : bitrev12 (s % 4096) < 4096
    q_lt = bitrev12-lt (s % 4096) (omega arith)

    i_back : s / 16 * 16 % 65536 / 16 ≡ s / 16
    i_back = omega arith

    q_back : bitrev12 (s % 4096) * 16 % 65536 / 16 ≡ bitrev12 (s % 4096)
    q_back = omega (arith, q_lt)

    low4 : s % 4096 % 16 ≡ s % 16
    low4 = omega arith
