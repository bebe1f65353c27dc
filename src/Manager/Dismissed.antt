-- ===== src/Manager/Dismissed.antt =====
-- runner_manager/lifecycle.rs: the end of a runner on a consistent manager.
use bolt_load.Prelude.{ℕ, ◌≡◌, ◌≢◌, refl, true, Option, none, some, List, arith}
use bolt_load.OrdMap.{get-remove}
use bolt_load.Adapter.Error.{Text}
use bolt_load.Planner.Chunk.{ChunkState}
use bolt_load.Planner.State.{ChunkPlanner, get_runner_state, mark_failed, mark_finished}
use bolt_load.Planner.Valid as PlannerValid
use bolt_load.Planner.Valid.Steps.{mark_failed-IsValid, mark_finished-IsValid}
use bolt_load.Planner.Release.{mark_failed_lem}
use bolt_load.Planner.Assigned.{mark_finished_lem}
use bolt_load.Strategy.Sampler.{RunnerOutcomeSampler}
use bolt_load.Manager.Types.{RunnerManager, RunnerTick}
use bolt_load.Manager.State.{release_runner}
use bolt_load.Manager.Consistent.{
  is_rejected, IsDistinct, has, IsConsistent, IsDismissed, IsWithout,
}

-- A handler that does not panic, and leaves the manager consistent.
abbrev pub Succeeds : Option (RunnerManager × RunnerTick) → Type 0
Succeeds r = (m' : RunnerManager) × (tick : RunnerTick) × (r ≡ some (m', tick)) × IsConsistent m'

-- What the planner does to the runner that ends.
pub record IsForgotten (id : ℕ) (p q : ChunkPlanner) : Type 0 where
  pub planner : PlannerValid.IsValid q
  pub gone : get_runner_state q id ≡ none
  pub others : (j : ℕ) → id ≢ j → get_runner_state q j ≡ get_runner_state p j

pub failed-IsForgotten :
    (p : ChunkPlanner) (id : ℕ) (c : ChunkState)
    → PlannerValid.IsValid p
    → get_runner_state p id ≡ some c
    → IsForgotten id p (mark_failed p id).0
failed-IsForgotten p id c v e =
    let l = mark_failed_lem p id c v e in
    record { planner = mark_failed-IsValid p id v; gone = l.1; others = l.4 }

pub finished-IsForgotten :
    (p : ChunkPlanner) (id : ℕ) (c : ChunkState)
    → PlannerValid.IsValid p
    → get_runner_state p id ≡ some c
    → IsForgotten id p (mark_finished p id).0
finished-IsForgotten p id c v e =
    let l = mark_finished_lem p id c v e in
    record { planner = mark_finished-IsValid p id v; gone = l.1; others = l.2 }

-- The rejected spawns that are left do not hold the runner.
abbrev pub IsReported : ℕ → (before after : List (ℕ × Text)) → Type 0
IsReported id before after =
    ((j : ℕ) → is_rejected j after ≡ true → (is_rejected j before ≡ true) × (id ≢ j))
    × IsDistinct after

-- A runner that was released, and forgotten by the planner.
pub gone-IsDismissed :
    (m : RunnerManager) (id : ℕ) (q : ChunkPlanner) (meters lifecycle : List (ℕ × ℕ))
    (failures : List (ℕ × Text)) (sampler : RunnerOutcomeSampler)
    → IsForgotten id m.chunk_planner q
    → IsWithout id m.lifecycle_aggregator lifecycle
    → IsReported id m.spawn_failures failures
    → IsDismissed id m (record (release_runner m id) {
      chunk_planner = q;
      meters = meters;
      lifecycle_aggregator = lifecycle;
      spawn_failures = failures;
      runner_outcome_sampler = sampler;
    })
unfolding release_runner
gone-IsDismissed m id q meters lifecycle failures sampler f out reported = record {
  ids = refl;
  planner = f.planner;
  gone = f.gone;
  others = f.others;
  limits = λ j. get-remove j id m.limit_senders;
  lifecycle = out;
  data_frames = λ j. get-remove j id m.data_aggregator;
  set_aside = λ j. get-remove j id m.connecting_data;
  reports = reported.0;
  distinct = reported.1;
}

-- A runner with events has no rejected spawn.
pub not_rejected :
    (m : RunnerManager) (id : ℕ)
    → IsConsistent m
    → has id m.lifecycle_aggregator ≡ true
    → IsReported id m.spawn_failures m.spawn_failures
not_rejected m id v h = (λ j k. (k, λ same. ground (arith, same, v.rejected j k)), v.distinct)
