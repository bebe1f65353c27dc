-- ===== src/Runner/Runs.antt =====
-- run_loop.rs: runs of the loop from a new runner, whatever the sources say.
use bolt_load.Prelude.{
  ℕ, ◌≤◌, ◌≡◌, refl, sym, ◌⊎◌, inl, Option, none, some, List, [], ◌∷◌, ◌++◌, arith, length, All,
}
use mathlib.Core.Path.{subst}
use bolt_load.Manager.Lifecycle.{LifecycleEvent, stopped, StoppedReason, finished}
use bolt_load.Runner.State.{
  RunnerInput, connected, connecting, abandoned, TaskRunner, Continuation, Emission, StreamingState,
  Phase, connecting_phase, publishing_started, stopped_phase, streaming, draining,
  publishing_stopped, RunnerLoop, new_loop,
}
use bolt_load.Runner.Poll.{Sources, rounds_from}
use bolt_load.Runner.Slices.{IsPrefix}
use bolt_load.Runner.Valid.{Fits, IsComplete, IsQuiet, IsStaged, IsRunning, IsValid}
use bolt_load.Runner.Holding.{less-Fits, prefix_left}
use bolt_load.Runner.Steps.{GoesOn-IsPrefix}
use bolt_load.Runner.Inputs.{HasInput, IsKept}
use bolt_load.Runner.Phases.{round-Succeeds}

new-Fits : (most : Option ℕ) (input : RunnerInput) → Fits most (new_loop input most).runner 0
new-Fits none input = refl
new-Fits (some t) input = (t, refl, omega arith, omega arith)

pub new_loop-IsValid :
    (input : RunnerInput) (total : Option ℕ) → IsValid total (new_loop input total)
new_loop-IsValid connected total = record {
  counted = refl;
  running = (refl, refl, refl, new-Fits total connected);
}
new_loop-IsValid connecting total = record {
  counted = refl;
  running = (refl, refl, refl, new-Fits total connecting);
}
new_loop-IsValid abandoned total = record {
  counted = refl;
  running = (([], refl), new-Fits total abandoned, inl (inl refl));
}

-- A loop is valid, and its runner holds what its phase polls.
abbrev pub Continues : Option ℕ → Option RunnerLoop → Type 0
Continues most r = (l : RunnerLoop) × (r ≡ some l) × IsValid most l × HasInput l.runner l.phase

pub new_loop-HasInput :
    (input : RunnerInput) (total : Option ℕ)
    → HasInput (new_loop input total).runner (new_loop input total).phase
new_loop-HasInput connected total = refl
new_loop-HasInput connecting total = refl
new_loop-HasInput abandoned total = tt

pub rounds-Succeeds :
    (most : Option ℕ) (l : RunnerLoop) (readings : List Sources)
    → IsValid most l
    → HasInput l.runner l.phase
    → All IsKept readings
    → Continues most (rounds_from (some l) readings)
rounds-Succeeds most l [] v from kept = (l, refl, v, from)
rounds-Succeeds most l (s ∷ rest) v from (kept, others) =
    let (l', e, v', from') = round-Succeeds most l s v from kept in
    subst (λ x. Continues most (rounds_from x rest)) (sym e)
      (rounds-Succeeds most l' rest v' from' others)

-- The events in the order that the manager expects: `Started` at most once, and a stop at the end. A stop
-- that is reported as finished is complete.
abbrev pub IsReported : TaskRunner → Type 0
IsReported r =
    IsQuiet r.published
    ⊎ ((before : List LifecycleEvent) × (reason : StoppedReason) × IsQuiet before
        × (r.published ≡ before ++ stopped reason ∷ [])
        × (stopped reason ≡ stopped finished → IsComplete r))

-- What holds in every phase.
abbrev Facts : Option ℕ → TaskRunner → Type 0
Facts most r = IsPrefix r.delivered r.received × Fits most r 0 × IsReported r

staged-Facts :
    (most : Option ℕ) (r : TaskRunner) (s : StreamingState) (x : Option (Emission × Continuation))
    → IsQuiet r.published
    → IsStaged most r s x
    → Facts most r
staged-Facts most r s none quiet (_, whole, _, fits) =
    ((s.buffer, whole), less-Fits most r (length s.buffer) 0 (omega arith) fits, inl quiet)
staged-Facts most r s (some (e, next)) quiet (_, (held, _, going, fits)) = (
  prefix_left r.delivered held r.received (GoesOn-IsPrefix r s.rest held next going),
  less-Fits most r (length held) 0 (omega arith) fits,
  inl quiet,
)

running-Facts :
    (most : Option ℕ) (r : TaskRunner) (phase : Phase) → IsRunning most r phase → Facts most r
running-Facts most r connecting_phase (a, b, c, fits) = (([], rw (a, b) refl), fits, inl (inl c))
running-Facts most r publishing_started (a, b, c, fits) = (([], rw (a, b) refl), fits, inl (inl c))
running-Facts most r stopped_phase v = v
running-Facts most r (streaming s) (quiet, v) = staged-Facts most r s s.staged quiet v
running-Facts most r (draining result) (quiet, begun, fits, _) = (begun, fits, inl quiet)
running-Facts most r (publishing_stopped none) v = absurd v
running-Facts most r (publishing_stopped (some event)) (quiet, begun, fits, _, _) =
    (begun, fits, inl quiet)

within_limit :
    (most : Option ℕ) (r : TaskRunner) → Fits most r 0 → (t : ℕ) → most ≡ some t → r.downloaded ≤ t
within_limit none r fits t e = absurd (cc)
within_limit (some n) r (limit, has, low, room) t e = ground (arith, e)

-- Whatever the sources say, and in whatever order, no run of a runner's loop panics, if a slot that a ring
-- buffer has reported as vacant takes the item pushed next: neither an `unreachable!` nor an `expect` is met, and
-- buffering needs no more than its fuel. At any time the bytes that were
-- delivered begin those that the stream gave, the counter is their number, and they are no more than the size
-- limit at the start, if there was one.
pub run_lem :
    (input : RunnerInput) (total : Option ℕ) (readings : List Sources)
    → All IsKept readings
    → (l : RunnerLoop) × (rounds_from (some (new_loop input total)) readings ≡ some l)
      × IsPrefix l.runner.delivered l.runner.received
      × (l.runner.downloaded ≡ length l.runner.delivered)
      × ((most : ℕ) → total ≡ some most → length l.runner.delivered ≤ most)
run_lem input total readings kept =
    let (l, e, v, _) =
      rounds-Succeeds total (new_loop input total) readings (new_loop-IsValid input total)
        (new_loop-HasInput input total) kept in
    let (begun, fits, _) = running-Facts total l.runner l.phase v.running in
    (
      l,
      e,
      begun,
      v.counted,
      λ t same. omega (arith, within_limit total l.runner fits t same, v.counted),
    )

-- In every run of a runner's loop, if a slot that a ring buffer has reported as vacant takes the item pushed
-- next, `Started` is published at most once, a stop at most once, and nothing
-- after it. A runner that is reported as finished has delivered as many bytes as its limit says,
-- or, without a limit, at least one.
pub run_reports :
    (input : RunnerInput) (total : Option ℕ) (readings : List Sources)
    → All IsKept readings
    → (l : RunnerLoop) × (rounds_from (some (new_loop input total)) readings ≡ some l)
      × IsReported l.runner
run_reports input total readings kept =
    let (l, e, v, _) =
      rounds-Succeeds total (new_loop input total) readings (new_loop-IsValid input total)
        (new_loop-HasInput input total) kept in
    (l, e, (running-Facts total l.runner l.phase v.running).2)
