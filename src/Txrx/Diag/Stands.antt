-- ===== src/Txrx/Diag/Stands.antt =====
-- How a diagnostic stands: what it holds, before it returns and after.
use zyndra.Txrx.Cli.{Diagnostic, diag_none, diag_test, diag_loopback, diag_prbs, diag_membench}
use zyndra.Base.{
  inl, inr, Bool-cases, refl, not, ◌||◌, ℕ, ◌≡◌, ◌&&◌, Bool, true, false, List, [], ◌∷◌, ◌++◌,
  if◌then◌else◌,
}
use zyndra.Txrx.Diag.Dispatch.{
  Act, device_opened, device_closed, rx_mapped, rx_unmapped, tx_mapped, tx_unmapped,
  buffer_allocated, buffer_freed, feeder_started, feeder_ended, Answers, Event, gets, puts, Run,
  returns, running, first_act, run_loop, run_feeding, run_diagnostic, closing_after,
  main_diagnostic,
}

-- What is held, and whether a feeder thread runs, and whether the TX map has gone while it does.
pub record Held : Type 0 where
  pub device : Bool
  pub rx_map : Bool
  pub tx_map : Bool
  pub buffer : Bool
  pub feeder : Bool
  pub dangling : Bool

abbrev pub nothing_held : Held
nothing_held = record {
  device = false;
  rx_map = false;
  tx_map = false;
  buffer = false;
  feeder = false;
  dangling = false;
}

abbrev pub act : Act → Held → Held
act device_opened h = record h { device = true }
act device_closed h = record h { device = false }
act rx_mapped h = record h { rx_map = true }
act rx_unmapped h = record h { rx_map = false }
act tx_mapped h = record h { tx_map = true }
act tx_unmapped h = record h { tx_map = false; dangling = h.feeder }
act buffer_allocated h = record h { buffer = true }
act buffer_freed h = record h { buffer = false }
act feeder_started h = record h { feeder = true }
act feeder_ended h = record h { feeder = false }

abbrev pub after_acts : List Act → Held → Held
after_acts [] h = h
after_acts (a ∷ rest) h = after_acts rest (act a h)

-- The diagnostics that transmit.
abbrev pub feeds : Diagnostic → Bool
feeds diag_loopback = true
feeds diag_prbs = true
feeds d = false

-- Whether a diagnostic gets to its loop over the reads.
abbrev pub loops : Diagnostic → Answers → Bool
loops diag_test a = a.opens && a.maps_rx
loops diag_loopback a = a.opens && (a.maps_rx && a.maps_tx)
loops diag_prbs a = a.opens && (a.maps_rx && a.maps_tx)
loops d a = false

abbrev pub a_read_fails : List Event → Bool
a_read_fails [] = false
a_read_fails (gets ok ∷ es) = not ok || a_read_fails es
a_read_fails (puts ok ∷ es) = a_read_fails es

-- No write fails before the first read that does.
abbrev pub feeds_on : List Event → Bool
feeds_on [] = true
feeds_on (gets ok ∷ es) = not ok || feeds_on es
feeds_on (puts ok ∷ es) = ok && feeds_on es

abbrev pub exit_code : Diagnostic → Answers → ℕ
exit_code diag_test a = 1
exit_code diag_membench a = if a.opens && (a.maps_rx && a.allocates) then 0 else 1
exit_code diag_none a = if a.opens then 0 else 1
exit_code d a = if loops d a then 0 else 1

-- How a run stands, by whether it has returned. `looping` is whether it gets to its loop, `left`
-- whether the feeder runs.
abbrev pub StandsAs : ℕ → Bool → Bool → List Event → Bool → Run → Type 0
StandsAs exit looping tx es left (returns code acts) =
    (after_acts acts nothing_held ≡ record nothing_held { feeder = left; dangling = left })
    × (code ≡ exit)
    × (if looping then a_read_fails es ≡ true else left ≡ false)
StandsAs exit looping tx es left (running acts) =
    (after_acts acts nothing_held
      ≡ record nothing_held { device = true; rx_map = true; tx_map = tx; feeder = left })
    × (looping ≡ true)
    × (a_read_fails es ≡ false)

abbrev pub Stands : Diagnostic → Answers → List Event → Run → Type 0
Stands d a es r =
    StandsAs (exit_code d a) (loops d a) (feeds d) es (feeds d && (loops d a && feeds_on es)) r

-- A loop that starts with these things held.
abbrev LoopStands : ℕ → Held → Held → Held → List Event → Run → Type 0
LoopStands code h ended going es (returns code' acts) =
    (code' ≡ code) × (after_acts (acts ++ device_closed ∷ []) h ≡ ended) × (a_read_fails es ≡ true)
LoopStands code h ended going es (running acts) =
    (after_acts acts h ≡ going) × (a_read_fails es ≡ false)

abbrev in_loop : Bool → Held
in_loop feeding = record nothing_held {
  device = true;
  rx_map = true;
  tx_map = true;
  feeder = feeding;
}

feeding_loop :
    (feeding : Bool) (es : List Event)
    → let left = feeding && feeds_on es in
      LoopStands 0
        (in_loop feeding)
        (record nothing_held { feeder = left; dangling = left })
        (in_loop left)
        es
        (run_loop 0 (tx_unmapped ∷ rx_unmapped ∷ []) feeding es)
unfolding run_loop
feeding_loop true [] = (refl, refl)
feeding_loop false [] = (refl, refl)
feeding_loop true (gets true ∷ es) = feeding_loop true es
feeding_loop false (gets true ∷ es) = feeding_loop false es
feeding_loop true (gets false ∷ es) = (refl, refl, refl)
feeding_loop false (gets false ∷ es) = (refl, refl, refl)
feeding_loop true (puts true ∷ es) = feeding_loop true es
feeding_loop false (puts true ∷ es) = feeding_loop false es
feeding_loop true (puts false ∷ es) =
    ended (run_loop 0 (tx_unmapped ∷ rx_unmapped ∷ []) false es) (feeding_loop false es)
  where
    ended :
        (r : Run)
        → LoopStands 0 (in_loop false) nothing_held (in_loop false) es r
        → LoopStands 0 (in_loop true) nothing_held (in_loop false) es (first_act feeder_ended r)
    ended (returns code acts) h = h
    ended (running acts) h = h
feeding_loop false (puts false ∷ es) = feeding_loop false es

abbrev in_test : Held
in_test = record nothing_held { device = true; rx_map = true }

test_loop :
    (es : List Event)
    → LoopStands 1 in_test nothing_held in_test es (run_loop 1 (rx_unmapped ∷ []) false es)
unfolding run_loop
test_loop [] = (refl, refl)
test_loop (gets true ∷ es) = test_loop es
test_loop (gets false ∷ es) = (refl, refl, refl)
test_loop (puts true ∷ es) = test_loop es
test_loop (puts false ∷ es) = test_loop es

test-StandsAs :
    (es : List Event) (r : Run)
    → LoopStands 1 in_test nothing_held in_test es r
    → StandsAs 1 true false es false
        (first_act device_opened (closing_after (first_act rx_mapped r)))
test-StandsAs es (returns code acts) (exit, given_back, fails) = (given_back, exit, fails)
test-StandsAs es (running acts) (held, fails) = (held, refl, fails)

feeding-StandsAs :
    (es : List Event) (left : Bool) (r : Run)
    → LoopStands 0
        (in_loop true)
        (record nothing_held { feeder = left; dangling = left })
        (in_loop left)
        es
        r
    → StandsAs 0 true true es left (
        first_act device_opened
          (closing_after (first_act rx_mapped (first_act tx_mapped (first_act feeder_started r)))))
feeding-StandsAs es left (returns code acts) (exit, given_back, fails) = (given_back, exit, fails)
feeding-StandsAs es left (running acts) (held, fails) = (held, refl, fails)

feeding-Stands :
    (a : Answers) (es : List Event)
    → Stands diag_prbs a es (
        if a.opens
        then first_act device_opened (closing_after (run_feeding a es))
        else returns 1 [])
unfolding run_feeding
feeding-Stands a es = elim (Bool-cases a.opens) [
  | inl opened ↦ elim (Bool-cases a.maps_rx) [
    | inl maps ↦ elim (Bool-cases a.maps_tx) [
      | inl both ↦
          rw (opened, maps, both)
            (feeding-StandsAs es (feeds_on es) (run_loop 0 (tx_unmapped ∷ rx_unmapped ∷ []) true es)
              (feeding_loop true es))
      | inr fails ↦ rw (opened, maps, fails) (refl, refl, refl)
    ]
    | inr fails ↦ rw (opened, fails) (refl, refl, refl)
  ]
  | inr fails ↦ rw fails (refl, refl, refl)
]

-- For every order of the reads and the feeder's writes, and whatever they answer: a diagnostic that
-- has returned has given back the device, its maps and its buffer, and `main` returns 0 just where
-- every call before the loop succeeds, but for `diag_test`, where it returns 1. From its loop a
-- diagnostic returns exactly when a read has failed; before, it holds the device, the RX map and,
-- where it transmits, the TX map. A diagnostic that transmits leaves its feeder's thread running
-- when it returns, with the TX map taken from under it, unless a write of the feeder has failed
-- before.
pub main_diagnostic-Stands :
    (d : Diagnostic) (a : Answers) (es : List Event) → Stands d a es (main_diagnostic d a es)
unfolding main_diagnostic run_diagnostic run_feeding
main_diagnostic-Stands diag_none a es = elim (Bool-cases a.opens) [
  | inl opened ↦ rw opened (refl, refl, refl)
  | inr fails ↦ rw fails (refl, refl, refl)
]
main_diagnostic-Stands diag_membench a es = elim (Bool-cases a.opens) [
  | inl opened ↦ elim (Bool-cases a.maps_rx) [
    | inl maps ↦ elim (Bool-cases a.allocates) [
      | inl got ↦ rw (opened, maps, got) (refl, refl, refl)
      | inr fails ↦ rw (opened, maps, fails) (refl, refl, refl)
    ]
    | inr fails ↦ rw (opened, fails) (refl, refl, refl)
  ]
  | inr fails ↦ rw fails (refl, refl, refl)
]
main_diagnostic-Stands diag_test a es = elim (Bool-cases a.opens) [
  | inl opened ↦ elim (Bool-cases a.maps_rx) [
    | inl maps ↦
        rw (opened, maps) (test-StandsAs es (run_loop 1 (rx_unmapped ∷ []) false es) (test_loop es))
    | inr fails ↦ rw (opened, fails) (refl, refl, refl)
  ]
  | inr fails ↦ rw fails (refl, refl, refl)
]
main_diagnostic-Stands diag_loopback a es = feeding-Stands a es
main_diagnostic-Stands diag_prbs a es = feeding-Stands a es
