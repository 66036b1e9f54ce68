-- ===== src/Axi/Tx/Full.antt =====
-- A TX ring that is filled to the last byte.
use native.Mathlib.Nat.{mod-add-mod, mod-eq_of_lt, add-mod_right}
use zyndra.Base.{ℕ, ◌+◌, ◌-◌, ◌%◌, ◌^◌, ◌≤◌, ◌<◌, ◌≡◌, ◌∙◌, ap, arith, true}
use zyndra.Ring.{ringbuf_used}
use zyndra.Ring.Distance.{ringbuf_used-add}
use zyndra.Axi.Write.{has_room}

module _ (b rd size : ℕ) (b_pos : 0 < b) (b_le : b ≤ size) (rd_in : rd < size)
    (fits : size < 2 ^ 32) where
  -- The write pointer that leaves exactly one block free.
  abbrev pub almost_full : ℕ
  almost_full = (rd + (size - b)) % size

  wraps : (almost_full + b) % size ≡ rd
  wraps =
      mod-add-mod (rd + (size - b)) size b
      ∙ (ap (λ x. x % size) {x = rd + (size - b) + b} {y = rd + size} (omega arith)
          ∙ (add-mod_right rd size ∙ mod-eq_of_lt rd_in))

  -- For any block that fits the ring and any read pointer in it, the driver accepts the write
  -- pointer that leaves exactly one block free, and then the one a block further on, at which the
  -- full ring has the fill 0 of an empty one.
  pub full_ring_looks_empty :
      (has_room b almost_full rd size ≡ true)
      × (has_room b ((almost_full + b) % size) rd size ≡ true)
      × (ringbuf_used rd ((almost_full + b) % size) size ≡ 0)
  unfolding has_room ringbuf_used
  full_ring_looks_empty = (
    ground (arith, ringbuf_used-add rd (size - b) size),
    ground (arith, wraps),
    ground (arith, wraps),
  )
