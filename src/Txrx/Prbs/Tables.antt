-- ===== src/Txrx/Prbs/Tables.antt =====
-- Facts about the bit operations of prbs.c, checked by evaluation over all values.
use zyndra.Base.{
  ℕ, ◌*◌, ◌/◌, ◌%◌, ◌<◌, ◌≡◌, refl, arith, true, ◌==◌, ◌&&◌, bit_and, bit_or, bit_xor, ==_iff,
  all_below_runs, all_below_runs_sound, ltb, ltb→lt,
}
use zyndra.Txrx.Prbs.{popcount, bitrev12}

bitrev_table : all_below_runs 64 64 (λ x. bitrev12 (bitrev12 x) == x) ≡ true
unfolding all_below_runs bitrev12
bitrev_table = refl

-- Reversing twelve bits twice gives them back.
pub bitrev12-bitrev12 : (x : ℕ) → x < 4096 → bitrev12 (bitrev12 x) ≡ x
bitrev12-bitrev12 x h =
    (==_iff _ x).0
      (all_below_runs_sound 64 64 (λ x. bitrev12 (bitrev12 x) == x) x bitrev_table (omega arith) h)

bitrev_bound : all_below_runs 64 64 (λ x. ltb (bitrev12 x) 4096) ≡ true
unfolding all_below_runs bitrev12
bitrev_bound = refl

pub bitrev12-lt : (x : ℕ) → x < 4096 → bitrev12 x < 4096
bitrev12-lt x h =
    ltb→lt _ 4096
      (all_below_runs_sound 64 64 (λ x. ltb (bitrev12 x) 4096) x bitrev_bound (omega arith) h)

mask_table : all_below_runs 64 64 (λ x. bit_and x 0xfff == x) ≡ true
unfolding all_below_runs
mask_table = refl

pub bit_and_fff : (x : ℕ) → x < 4096 → bit_and x 0xfff ≡ x
bit_and_fff x h =
    (==_iff _ x).0
      (all_below_runs_sound 64 64 (λ x. bit_and x 0xfff == x) x mask_table (omega arith) h)

low_table :
    all_below_runs 256 256 (λ x. (bit_and x 0xfff == x % 4096) && (bit_and x 0xf == x % 16)) ≡ true
unfolding all_below_runs
low_table = refl

pub bit_and_low : (x : ℕ) → x < 65536 → (bit_and x 0xfff ≡ x % 4096) × (bit_and x 0xf ≡ x % 16)
bit_and_low x h = ground (
  arith,
  all_below_runs_sound 256 256 (λ x. (bit_and x 0xfff == x % 4096) && (bit_and x 0xf == x % 16)) x
      low_table (omega arith) h,
)

or_table : all_below_runs 256 256 (λ x. bit_or (x / 16 * 16) (x % 16) == x) ≡ true
unfolding all_below_runs
or_table = refl

pub bit_or_fields : (x : ℕ) → x < 65536 → bit_or (x / 16 * 16) (x % 16) ≡ x
bit_or_fields x h = (==_iff _ x).0 (
    all_below_runs_sound 256 256 (λ x. bit_or (x / 16 * 16) (x % 16) == x) x or_table (omega arith)
      h)

-- The parity of twelve bits, folded.
unfoldable pub parity12 : ℕ → ℕ
parity12 x =
    let a = bit_xor x (x / 64) % 64 in
    let b = bit_xor a (a / 8) % 8 in bit_xor (bit_xor b (b / 2)) (b / 4) % 2

parity_table : all_below_runs 64 64 (λ x. bit_and (popcount 32 x) 1 == parity12 x) ≡ true
unfolding all_below_runs popcount parity12
parity_table = refl

pub popcount-parity : (x : ℕ) → x < 4096 → bit_and (popcount 32 x) 1 ≡ parity12 x
popcount-parity x h = (==_iff _ _).0 (
    all_below_runs_sound 64 64 (λ x. bit_and (popcount 32 x) 1 == parity12 x) x parity_table
      (omega arith) h)
