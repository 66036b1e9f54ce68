-- ===== src/Txrx/Diag/Dispatch.antt =====
-- The diagnostics as a whole: what each takes and gives back on every path, in every order of its
-- reads and its feeder's writes, and the branch of `main` that runs them.
use zyndra.Txrx.Cli.{Diagnostic, diag_none, diag_test, diag_loopback, diag_prbs, diag_membench}
use zyndra.Base.{ℕ, Bool, true, false, List, [], ◌∷◌, ◌++◌, if◌then◌else◌}

pub data Act : Type 0 where
  device_opened device_closed rx_mapped rx_unmapped tx_mapped tx_unmapped : Act
  buffer_allocated buffer_freed feeder_started feeder_ended : Act

-- Whether `driver_open`, the two mappings and `malloc` succeed.
pub record Answers : Type 0 where
  pub opens : Bool
  pub maps_rx : Bool
  pub maps_tx : Bool
  pub allocates : Bool

-- A step of a diagnostic in its loop, or of its feeder: whether the call of `driver_rx_get_block`,
-- or of `driver_tx_put_block`, succeeds.
pub data Event : Type 0 where
  gets puts : Bool → Event

-- How a diagnostic stands after its events: it has returned an exit code, or it runs on.
pub data Run : Type 0 where
  returns : ℕ → List Act → Run
  running : List Act → Run

abbrev pub first_act : Act → Run → Run
first_act x (returns code acts) = returns code (x ∷ acts)
first_act x (running acts) = running (x ∷ acts)

-- The loop over the reads, which ends with the first that fails. `feeding` says whether the feeder
-- runs, which ends with the first write that fails.
unfoldable pub run_loop : ℕ → List Act → Bool → List Event → Run
run_loop code last feeding [] = running []
run_loop code last feeding (gets true ∷ es) = run_loop code last feeding es
run_loop code last feeding (gets false ∷ es) = returns code last
run_loop code last feeding (puts true ∷ es) = run_loop code last feeding es
run_loop code last true (puts false ∷ es) = first_act feeder_ended (run_loop code last false es)
run_loop code last false (puts false ∷ es) = run_loop code last false es

-- `diag_loopback` and `diag_prbs`.
unfoldable pub run_feeding : Answers → List Event → Run
run_feeding a es =
    if a.maps_rx
    then (if a.maps_tx
        then first_act rx_mapped (
            first_act tx_mapped
              (first_act feeder_started (run_loop 0 (tx_unmapped ∷ rx_unmapped ∷ []) true es)))
        else returns 1 (rx_mapped ∷ rx_unmapped ∷ []))
    else returns 1 []

unfoldable pub run_diagnostic : Diagnostic → Answers → List Event → Run
run_diagnostic diag_test a es =
    if a.maps_rx then first_act rx_mapped (run_loop 1 (rx_unmapped ∷ []) false es) else returns 1 []
run_diagnostic diag_membench a es =
    if a.maps_rx
    then (if a.allocates
        then returns 0 (rx_mapped ∷ buffer_allocated ∷ buffer_freed ∷ rx_unmapped ∷ [])
        else returns 1 (rx_mapped ∷ rx_unmapped ∷ []))
    else returns 1 []
run_diagnostic diag_loopback a es = run_feeding a es
run_diagnostic diag_prbs a es = run_feeding a es
run_diagnostic diag_none a es = returns 0 []

-- `driver_close` follows where the diagnostic returns.
abbrev pub closing_after : Run → Run
closing_after (returns code acts) = returns code (acts ++ device_closed ∷ [])
closing_after (running acts) = running acts

unfoldable pub main_diagnostic : Diagnostic → Answers → List Event → Run
main_diagnostic d a es =
    if a.opens
    then first_act device_opened (closing_after (run_diagnostic d a es))
    else returns 1 []
