-- ===== src/Ring/Distance.antt =====
-- `ringbuf_used` is the distance from the read to the write position, going round at `size`.
use native.Mathlib.Nat.{add-mod_right, mod-add-mod, mod-eq_of_lt, mod-eq-sub-mod}
use zyndra.Base.{ℕ, ◌+◌, ◌-◌, ◌%◌, ◌^◌, ◌≤◌, ◌<◌, ◌≡◌, ◌≢◌, ap, ◌∙◌, arith, dec_lt}
use zyndra.Ring.{ringbuf_used}

-- The value on the two branches.
pub ringbuf_used_of_le : (rd wr size : ℕ) → rd ≤ wr → ringbuf_used rd wr size ≡ wr - rd
unfolding ringbuf_used
ringbuf_used_of_le rd wr size h = ground arith

pub ringbuf_used_of_lt :
    (rd wr size : ℕ)
    → wr < rd
    → rd ≤ size
    → size < 2 ^ 32
    → ringbuf_used rd wr size ≡ size - rd + wr
unfolding ringbuf_used
ringbuf_used_of_lt rd wr size h k s = ground arith

pub ringbuf_used-lt :
    (rd wr size : ℕ) → rd < size → wr < size → size < 2 ^ 32 → ringbuf_used rd wr size < size
unfolding ringbuf_used
ringbuf_used-lt rd wr size h k s = ground arith

pub ringbuf_used-add :
    (rd d size : ℕ)
    → rd < size
    → d < size
    → size < 2 ^ 32
    → ringbuf_used rd ((rd + d) % size) size ≡ d
unfolding ringbuf_used
ringbuf_used-add rd d size h k s = elim (dec_lt (rd + d) size) [
  | yes p ↦ rw (mod-eq_of_lt p) (ground arith)
  | no p ↦
      rw
        (
          mod-eq-sub-mod {n = rd + d} {m = size} (omega arith),
          mod-eq_of_lt {n = rd + d - size} {m = size} (omega arith),
        )
        (ground arith)
]

pub ringbuf_used-mod :
    (a b size : ℕ)
    → a ≤ b
    → b < a + size
    → size < 2 ^ 32
    → ringbuf_used (a % size) (b % size) size ≡ b - a
ringbuf_used-mod a b size h k s =
    rw (← e) (ringbuf_used-add (a % size) (b - a) size (omega arith) (omega arith) s)
  where
    e : (a % size + (b - a)) % size ≡ b % size
    e = mod-add-mod a size (b - a) ∙ ap (λ t. t % size) {x = a + (b - a)} {y = b} (omega arith)

-- Less than a ring apart, two positions are two places.
pub other_residue :
    (at cnt d e : ℕ) → d < e → e < cnt → cnt < 2 ^ 32 → (at + e) % cnt ≢ (at + d) % cnt
other_residue at cnt d e h k s same = omega (
  arith,
  ringbuf_used-mod (at + d) (at + e) cnt (omega arith) (omega arith) s,
  ringbuf_used-mod (at + d) (at + d) cnt (omega arith) (omega arith) s,
  ap (λ (t : ℕ). ringbuf_used ((at + d) % cnt) t cnt) same,
)

-- Going the distance from the read position reaches the write position.
pub add-ringbuf_used :
    (rd wr size : ℕ)
    → rd < size
    → wr < size
    → size < 2 ^ 32
    → (rd + ringbuf_used rd wr size) % size ≡ wr
unfolding ringbuf_used
add-ringbuf_used rd wr size h k s = elim (dec_lt wr rd) [
  | yes p ↦ rw (ringbuf_used_of_lt rd wr size p (omega arith) s) (
      ap (λ x. x % size) {x = rd + (size - rd + wr)} {y = wr + size} (omega arith)
      ∙ (add-mod_right wr size ∙ mod-eq_of_lt k))
  | no p ↦
      rw (ringbuf_used_of_le rd wr size (omega arith))
        (ap (λ x. x % size) {x = rd + (wr - rd)} {y = wr} (omega arith) ∙ mod-eq_of_lt k)
]
