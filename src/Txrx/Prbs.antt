-- ===== src/Txrx/Prbs.antt =====
-- prbs.c: the 16-bit shift register, its samples, the tables and the block filler.
pub mod Tables
pub mod Register
pub mod Period
pub mod Init
pub mod Fill
use zyndra.Base.{
  ℕ, zero, suc, ◌+◌, ◌-◌, ◌*◌, ◌/◌, ◌%◌, ◌^◌, bit_and, bit_or, bit_xor, ◌==◌, if◌then◌else◌, Bool,
  ltb, List, [], ◌∷◌, ◌++◌, Option, none, some, min,
}
use mathlib.Core.Option

-- `PRBS_LEN`
abbrev pub prbs_len : ℕ
prbs_len = 65535

-- The loop of `bitrev12`: rounds left, `i`, and `out`.
unfoldable pub bitrev_loop : ℕ → ℕ → ℕ → ℕ → ℕ
bitrev_loop zero i x out = out
bitrev_loop (suc k) i x out =
    bitrev_loop k (i + 1) x (bit_or out (bit_and (x / 2 ^ i) 1 * 2 ^ (11 - i)))

unfoldable pub bitrev12 : ℕ → ℕ
unfolding bitrev_loop
bitrev12 x = bitrev_loop 12 0 x 0

-- The number of ones among the lowest `k` bits. `__builtin_popcount` counts 32.
unfoldable pub popcount : ℕ → ℕ → ℕ
popcount zero x = 0
popcount (suc k) x = x % 2 + popcount k (x / 2)

unfoldable pub lfsr_next : ℕ → ℕ
lfsr_next state =
    let xor_hi = bit_and (popcount 32 (bit_and (state / 2 ^ 4) 0xfff)) 1 in
    let xor_lo = bit_and (popcount 32 (bit_and (state / 2 ^ 1) 0x3)) 1 in
    bit_and (bit_or (state * 2) (bit_xor xor_hi xor_lo)) 0xffff

unfoldable pub prbs_state_from_iq : ℕ → ℕ → ℕ
prbs_state_from_iq i q = bit_or (bit_and i 0xfff * 2 ^ 4) (bit_and (bitrev12 (bit_and q 0xfff)) 0xf)

-- `struct prbs_iq`, the two `int16_t` as bit patterns.
pub record PrbsIq : Type 0 where
  pub i : ℕ
  pub q : ℕ

-- The sample of a state, from the body of the loop of `prbs_init`.
unfoldable pub sample_of : ℕ → PrbsIq
sample_of state = record {
  i = bit_and (state / 2 ^ 4) 0xfff * 2 ^ 4 % 2 ^ 16;
  q = bitrev12 (bit_and state 0xfff) * 2 ^ 4 % 2 ^ 16;
}

-- `g_prbs_lut` and `g_prbs_pos`.
pub record Luts : Type 0 where
  pub lut : ℕ → PrbsIq
  pub pos : ℕ → ℕ

-- A write to an array.
abbrev pub update : {A : Type 0} → (ℕ → A) → ℕ → A → ℕ → A
update f i a j = if i == j then a else f j

-- The loop of `prbs_init`: rounds left, `n`, `state` and the tables.
unfoldable pub init_loop : ℕ → ℕ → ℕ → Luts → Luts
init_loop zero n state t = t
init_loop (suc k) n state t =
    init_loop k (n + 1) (lfsr_next state)
      (record { lut = update t.lut n (sample_of state); pos = update t.pos state n })

unfoldable pub prbs_init : Luts → Luts
prbs_init t = init_loop prbs_len 0 1 t

-- `prbs_fill_block`: the samples stored at `dst`, and the new position. Each round copies a chunk up
-- to the end of the table; the fuel bounds the rounds.
unfoldable pub copy : (ℕ → PrbsIq) → ℕ → ℕ → List PrbsIq
copy lut p zero = []
copy lut p (suc n) = lut p ∷ copy lut (p + 1) n

unfoldable pub fill_loop : (ℕ → PrbsIq) → ℕ → ℕ → ℕ → Option (List PrbsIq × ℕ)
fill_loop lut zero remaining p = none
fill_loop lut (suc fuel) remaining p =
    let chunk = min (prbs_len - p) remaining in
    let rest = fill_loop lut fuel (remaining - chunk) ((p + chunk) % prbs_len) in
    let round = Option.map (λ (r : List PrbsIq × ℕ). (copy lut p chunk ++ r.0, r.1)) rest in
    if ltb 0 remaining then round else some ([], p)

-- A round copies at least one sample, so `num_samples + 1` rounds are enough.
unfoldable pub prbs_fill_block : (ℕ → PrbsIq) → ℕ → ℕ → Option (List PrbsIq × ℕ)
prbs_fill_block lut num_samples p = fill_loop lut (num_samples + 1) num_samples p
