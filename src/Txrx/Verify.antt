-- ===== src/Txrx/Verify.antt =====
-- The comparison of a received block with the PRBS tables, from the main loop of `diag_prbs`.
pub mod Bisect
pub mod Matches
use zyndra.Base.{
  ℕ, zero, suc, ◌+◌, ◌-◌, ◌/◌, ◌%◌, ◌==◌, ◌&&◌, ltb, if◌then◌else◌, Bool, true, Option, none, some,
  min,
}
use zyndra.Txrx.Prbs.{prbs_len, PrbsIq}

-- `memcmp` of one sample.
abbrev pub same : PrbsIq → PrbsIq → Bool
same a b = a.i == b.i && a.q == b.q

-- `memcmp` of `n` samples, of the block from `s` on with the table from `p` on, is 0.
unfoldable pub equal_run : (ℕ → PrbsIq) → (ℕ → PrbsIq) → ℕ → ℕ → ℕ → Bool
equal_run blk lut s p zero = true
equal_run blk lut s p (suc n) = same (blk s) (lut p) && equal_run blk lut (s + 1) (p + 1) n

module _ (blk lut : ℕ → PrbsIq) where
  -- The binary search for the first sample that differs, in a chunk at `s` and `p`; fuel bounds the
  -- rounds, and `none` means that it ran out.
  unfoldable pub bisect : ℕ → ℕ → ℕ → ℕ → ℕ → Option ℕ
  bisect zero s p lo hi = none
  bisect (suc fuel) s p lo hi =
      let mid = lo + (hi - lo) / 2 in
      let left = bisect fuel s p mid hi in
      let right = bisect fuel s p lo mid in
      let found = if equal_run blk lut (s + lo) (p + lo) (mid - lo) then left else right in
      if ltb 1 (hi - lo) then found else some lo

  -- `matched`: the whole block agrees, and this is the next position. `differs`: the index in the
  -- block and the position of the sample at which the search ends.
  pub data Check : Type 0 where
    matched : ℕ → Check
    differs : ℕ → ℕ → Check
    no_fuel : Check

  unfoldable pub report : ℕ → ℕ → Option ℕ → Check
  report s p (some i) = differs (s + i) (p + i)
  report s p none = no_fuel

  -- The loop over chunks: samples done, position, block length.
  unfoldable pub check_loop : ℕ → ℕ → ℕ → ℕ → Check
  check_loop zero s p num_samples = no_fuel
  check_loop (suc fuel) s p num_samples =
      let chunk = min (prbs_len - p) (num_samples - s) in
      let rest = check_loop fuel (s + chunk) ((p + chunk) % prbs_len) num_samples in
      let stop = report s p (bisect (chunk + 1) s p 0 chunk) in
      if ltb s num_samples then (if equal_run blk lut s p chunk then rest else stop) else matched p

  unfoldable pub check_block : ℕ → ℕ → Check
  check_block p num_samples = check_loop (num_samples + 1) 0 p num_samples
