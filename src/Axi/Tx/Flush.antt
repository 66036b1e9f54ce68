-- ===== src/Axi/Tx/Flush.antt =====
-- The cache lines that are flushed before a new TX write pointer reaches the FPGA.
use zyndra.Base.{
  ℕ, ◌+◌, ◌^◌, ◌≤◌, ◌<◌, ◌≡◌, arith, List, [], ◌∷◌, Bool, false, ◌&&◌, ◌||◌, leb, ltb, All,
}
use zyndra.Ring.{ringbuf_used}
use zyndra.Axi.Write.{flush_ranges}

-- Whether an offset lies in one of the ranges.
abbrev pub in_ranges : ℕ → List (ℕ × ℕ) → Bool
in_ranges x [] = false
in_ranges x ((off, len) ∷ rs) = (leb off x && ltb x (off + len)) || in_ranges x rs

-- The sum of the lengths.
abbrev pub total_len : List (ℕ × ℕ) → ℕ
total_len [] = 0
total_len ((off, len) ∷ rs) = len + total_len rs

module _ (size old_wr wr : ℕ) (old_in : old_wr < size) (wr_in : wr < size)
    (fits : size < 2 ^ 32) where
  -- The flushed ranges lie inside the ring, and their lengths add up to the distance from the old
  -- to the new write pointer.
  pub flush_ranges_inside :
      All (λ (r : ℕ × ℕ). r.0 + r.1 ≤ size) (flush_ranges size old_wr wr)
      × (total_len (flush_ranges size old_wr wr) ≡ ringbuf_used old_wr wr size)
  unfolding flush_ranges ringbuf_used
  flush_ranges_inside = ground arith

  -- For pointers inside a ring of less than 2^32 bytes, an offset of the ring is flushed exactly
  -- when it lies between the old and the new write pointer, going round at the end.
  pub in_ranges-flush_ranges :
      (x : ℕ)
      → x < size
      → in_ranges x (flush_ranges size old_wr wr)
        ≡ ltb (ringbuf_used old_wr x size) (ringbuf_used old_wr wr size)
  unfolding flush_ranges ringbuf_used
  in_ranges-flush_ranges x h = ground arith
