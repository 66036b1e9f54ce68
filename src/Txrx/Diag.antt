-- ===== src/Txrx/Diag.antt =====
-- diag.c: the diagnostics. The comparison of one block with the PRBS tables is in `Verify`.
pub mod Clean
pub mod Feed
pub mod Tone
pub mod Count
pub mod Loop
pub mod Bench
pub mod Dispatch
pub mod Stands
use zyndra.Base.{
  ℕ, ◌+◌, ◌/◌, ◌%◌, ◌^◌, ◌==◌, Bool, true, false, List, [], ◌∷◌, ◌++◌, Option, none, some, ltb,
  if◌then◌else◌, add64, mul32,
}
use zyndra.Ring.{ringbuf_used}
use zyndra.Axi.Read.{RxRead}
use zyndra.Txrx.Prbs.{PrbsIq, Luts, prbs_state_from_iq, prbs_fill_block}
use zyndra.Txrx.Verify.{Check, matched, differs, no_fuel, check_block}

-- The variables of `diag_prbs`. `pos` is none for -1; `catching` says that the code is in the loop
-- that reads on until it is no more than two blocks behind.
pub record PrbsRun : Type 0 where
  pub pos : Option ℕ
  pub errors : ℕ
  pub total_errors : ℕ
  pub samples : ℕ
  pub catching : Bool

-- A line that is printed: errors and samples since the last, and all errors.
pub record PrbsLine : Type 0 where
  pub errors_now : ℕ
  pub errors_all : ℕ
  pub samples_now : ℕ

abbrev pub prbs_start : PrbsRun
prbs_start = record { pos = none; errors = 0; total_errors = 0; samples = 0; catching = false }

-- What a successful `driver_rx_get_block` gives: the answer, the block at that offset, and whether a
-- second has passed when the clock is read at the end of the round.
pub record Got : Type 0 where
  pub answer : RxRead
  pub block : ℕ → PrbsIq
  pub second_over : Bool

module _ (t : Luts) (block_size rx_buf_size : ℕ) where
  -- `SAMPLE_SIZE` is 4.
  abbrev pub num_samples : ℕ
  num_samples = block_size / 4

  -- The code from the label `next_block` on.
  unfoldable pub next_block : Bool → PrbsRun → PrbsRun × List PrbsLine
  next_block over s =
      let samples = add64 s.samples num_samples in
      let total = add64 s.total_errors s.errors in
      if over
      then (
        record s { errors = 0; samples = 0; total_errors = total },
        record { errors_now = s.errors; errors_all = total; samples_now = samples } ∷ [],
      )
      else (record s { samples = samples }, [])

  -- `behind > block_size * 2`
  abbrev pub is_behind : RxRead → Bool
  is_behind r = ltb (mul32 block_size 2) (ringbuf_used r.rd r.hw_wr rx_buf_size)

  -- The catch-up loop at one answer.
  unfoldable pub catch_up : Got → PrbsRun → PrbsRun × List PrbsLine
  catch_up g s =
      if is_behind g.answer
      then (record s { catching = true }, [])
      else next_block g.second_over (record s { catching = false })

  -- After the comparison of a block.
  unfoldable pub after_check : (g : Got) → Check g.block t.lut → PrbsRun → PrbsRun × List PrbsLine
  after_check g (matched p) s = next_block g.second_over (record s { pos = some p })
  after_check g (differs i p) s = catch_up g (record s { errors = add64 s.errors 1; pos = none })
  after_check g no_fuel s = (s, [])

  -- A position from the first sample of a block.
  unfoldable pub lock : Got → Option ℕ
  lock g =
      let first = g.block 0 in
      let st = prbs_state_from_iq (first.i / 2 ^ 4) (first.q / 2 ^ 4) in
      if st == 0 then none else some (t.pos st)

  unfoldable pub check_at : Got → Option ℕ → PrbsRun → PrbsRun × List PrbsLine
  check_at g none s = (s, [])
  check_at g (some p) s = after_check g (check_block g.block t.lut p num_samples) s

  abbrev pub or_else : Option ℕ → Option ℕ → Option ℕ
  or_else none o = o
  or_else (some p) o = some p

  -- The use of one answer, in the main loop or in the catch-up loop.
  unfoldable pub prbs_step : Got → PrbsRun → PrbsRun × List PrbsLine
  prbs_step g s = if s.catching then catch_up g s else check_at g (or_else s.pos (lock g)) s

  -- The loop over the answers, until a read fails.
  unfoldable pub prbs_run : List Got → PrbsRun → PrbsRun × List PrbsLine
  prbs_run [] s = (s, [])
  prbs_run (g ∷ gs) s =
      let (s', lines) = prbs_step g s in let (s'', more) = prbs_run gs s' in (s'', lines ++ more)
