-- ===== src/Runner/Tests.antt =====
-- run_loop.rs: a run with a limit of three bytes, and the theorems at it.
use bolt_load.Prelude.{
  ℕ, ◌≤◌, ◌≡◌, refl, true, false, none, some, List, [], ◌∷◌, ◌++◌, Option, ok, arith, length,
}
use bolt_load.Manager.Types.{Bytes}
use bolt_load.Manager.Lifecycle.{LifecycleEvent, started, stopped, finished}
use bolt_load.Runner.State.{connected, stopped_phase, RunnerLoop, new_loop}
use bolt_load.Runner.Emit.{cancel, slot, vacancy, wait}
use bolt_load.Runner.Poll.{Sources, round, rounds_from}
use bolt_load.Runner.Slices.{IsPrefix}
use bolt_load.Prelude.{All}
use bolt_load.Runner.Inputs.{IsKept}
use bolt_load.Runner.Runs.{IsReported, run_lem, run_reports}
use bolt_load.Runner.Cancel.{cancelled_stops}

-- Nothing has come.
abbrev quiet : Sources
quiet = record {
  cancel = false;
  signal = none;
  timer = false;
  connection = none;
  stream = none;
  signals = [];
  emission = wait;
  room = some (slot true);
  is_drained = true;
}

abbrev given : Bytes → Sources
given bytes = record quiet { stream = some (some (ok bytes)) }

abbrev taken : Sources
taken = record quiet { emission = vacancy (slot true) }

-- `Started`; two bytes; two more, of which one fits; the push; the drain; the stop.
abbrev readings : List Sources
readings = quiet ∷ given (1 ∷ 2 ∷ []) ∷ given (3 ∷ 4 ∷ []) ∷ taken ∷ quiet ∷ quiet ∷ []

abbrev outcome : Option RunnerLoop → Option (Bytes × List LifecycleEvent)
outcome none = none
outcome (some l) = some (l.runner.delivered, l.runner.published)

run_outcome :
    outcome (rounds_from (some (new_loop connected (some 3))) readings)
    ≡ some (1 ∷ 2 ∷ 3 ∷ [], started ∷ stopped finished ∷ [])
unfolding round
run_outcome = refl

readings-IsKept : All IsKept readings
readings-IsKept = (
  (refl, refl),
  ((refl, refl), ((refl, refl), ((refl, refl), ((refl, refl), ((refl, refl), tt))))),
)

run_lem_example :
    (l : RunnerLoop) × (rounds_from (some (new_loop connected (some 3))) readings ≡ some l)
    × IsPrefix l.runner.delivered l.runner.received
    × (l.runner.downloaded ≡ length l.runner.delivered)
    × ((most : ℕ) → some 3 ≡ some most → length l.runner.delivered ≤ most)
run_lem_example = run_lem connected (some 3) readings readings-IsKept

run_reports_example :
    (l : RunnerLoop) × (rounds_from (some (new_loop connected (some 3))) readings ≡ some l)
    × IsReported l.runner
run_reports_example = run_reports connected (some 3) readings readings-IsKept

abbrev told : Sources
told = record quiet { cancel = true; emission = cancel }

cancelled_stops_example :
    (l : RunnerLoop) × (rounds_from
        (some (new_loop connected (some 3)))
        (readings ++ told ∷ told ∷ told ∷ [])
      ≡ some l)
    × (l.phase ≡ stopped_phase)
cancelled_stops_example =
    cancelled_stops connected (some 3) readings (told ∷ told ∷ told ∷ []) readings-IsKept
      ((refl, refl), ((refl, refl), ((refl, refl), tt)))
      ((refl, refl, refl), ((refl, refl, refl), ((refl, refl, refl), tt))) (omega arith)
