-- ===== src/Manager/Handled.antt =====
-- runner_manager/lifecycle.rs: the handlers on a consistent manager.
use bolt_load.Prelude.{
  ℕ, ◌≡◌, refl, sym, true, Option, some, List, ◌∷◌, arith, value_of, Bool-cases, inl, inr,
}
use mathlib.Core.Path.{subst}
use bolt_load.OrdMap.{remove, get-insert, get-remove}
use bolt_load.Adapter.Error.{Text, other}
use bolt_load.Planner.Chunk.{ChunkState}
use bolt_load.Planner.State.{ChunkPlanner, get_runner_state}
use bolt_load.Planner.Valid.Steps.{mark_running-IsValid}
use bolt_load.Planner.Assigned.{mark_running_lem}
use bolt_load.Manager.Types.{RunnerManager, RunnerTick}
use bolt_load.Manager.State.{is_connecting, release_runner}
use bolt_load.Manager.Lifecycle.{
  StoppedReason, failed, finished, started, stopped, handle_lifecycle, handle_started,
  handle_connected, handle_spawn_failed, handle_runner_lost, released, connect_error, is_exceeded,
  lost_outcome,
}
use bolt_load.Manager.Consistent.{IsDistinct, has, IsConsistent, chunk_of, dismissed-IsConsistent}
use bolt_load.Manager.Release.{
  IsLate, fail_chunk_total, record_in_sampler_total, Ends, failed_planner,
  handle_connect_failed_total, handle_failed_total, handle_completed_total,
}
use bolt_load.Manager.Dismissed.{
  Succeeds, failed-IsForgotten, finished-IsForgotten, IsReported, gone-IsDismissed, not_rejected,
  IsForgotten,
}

released-Succeeds :
    (m : RunnerManager) (id : ℕ) (q : ChunkPlanner) (r : Option (RunnerManager × RunnerTick))
    → IsConsistent m
    → IsReported id m.spawn_failures m.spawn_failures
    → IsForgotten id m.chunk_planner q
    → Ends (released m id) q r
    → Succeeds r
unfolding release_runner
released-Succeeds m id q r v apart f (m', tick, done, same) = (
  m',
  tick,
  done,
  subst IsConsistent (sym same) (
      dismissed-IsConsistent id m _ v (
        gone-IsDismissed m id q _ _ _ m'.runner_outcome_sampler f
          (λ j. get-remove j id m.lifecycle_aggregator) apart)),
)

-- A runner that stopped after it had connected.
connected_total :
    (m : RunnerManager) (id : ℕ) (c : ChunkState) (reason : StoppedReason) (now : ℕ)
    → IsConsistent m
    → IsReported id m.spawn_failures m.spawn_failures
    → get_runner_state m.chunk_planner id ≡ some c
    → IsLate m now
    → Succeeds (handle_connected (released m id) id reason now)
unfolding release_runner
connected_total m id c finished now v apart chunk late =
    released-Succeeds m id _ _ v apart (finished-IsForgotten m.chunk_planner id c v.planner chunk)
      (handle_completed_total (released m id) id c v.planner chunk now late)
connected_total m id c (failed kind) now v apart chunk late = elim (Bool-cases (is_exceeded kind)) [
  | inl all_there ↦ rw all_there (
      released-Succeeds m id _ _ v apart (finished-IsForgotten m.chunk_planner id c v.planner chunk)
        (handle_completed_total (released m id) id c v.planner chunk now late))
  | inr short ↦ rw short (
      released-Succeeds m id _ _ v apart (failed-IsForgotten m.chunk_planner id c v.planner chunk)
        (handle_failed_total (released m id) id c v.planner chunk now late kind))
]

-- A runner that stopped.
pub stopped_total :
    (m : RunnerManager) (id : ℕ) (reason : StoppedReason) (now : ℕ)
    → IsConsistent m
    → has id m.lifecycle_aggregator ≡ true
    → IsLate m now
    → Succeeds (handle_lifecycle m id (stopped reason) now)
unfolding handle_lifecycle release_runner
stopped_total m id reason now v h late =
    let (c, chunk) = chunk_of m id v (v.listening id h) in
    let apart = not_rejected m id v h in
    elim (Bool-cases (is_connecting m id)) [
      | inl connects ↦
          rw (connects, handle_lifecycle)
            (released-Succeeds m id _ _ v apart
              (failed-IsForgotten m.chunk_planner id c v.planner chunk)
              (handle_connect_failed_total (released m id) id c v.planner chunk now late
                (connect_error reason)))
      | inr connected ↦
          rw (connected, handle_lifecycle) (connected_total m id c reason now v apart chunk late)
    ]

-- A runner that connected.
pub started_total :
    (m : RunnerManager) (id now : ℕ)
    → IsConsistent m
    → has id m.lifecycle_aggregator ≡ true
    → is_connecting m id ≡ true
    → Succeeds (handle_lifecycle m id started now)
unfolding handle_lifecycle handle_started
started_total m id now v h connects =
    let (c, chunk) = chunk_of m id v (v.listening id h) in
    let (data_rx, set_aside) = value_of _ (v.connecting id h connects) in
    let l = mark_running_lem m.chunk_planner id c v.planner chunk in
    rw (l.0, handle_started, set_aside)
      (
        _,
        _,
        refl,
        record {
          ids = v.ids;
          planner = mark_running-IsValid m.chunk_planner id v.planner;
          assigned = λ j. ground (arith, v.assigned j, l.1, l.2 j, chunk);
          limited = v.limited;
          listening = v.listening;
          receiving = λ j k. ground (
            arith,
            v.receiving j,
            get-insert j id data_rx m.data_aggregator,
            v.listening id h,
            k,
          );
          connecting = λ j k k'.
              ground (arith, v.connecting j, l.1, l.2 j, get-remove j id m.connecting_data, k, k');
          rejected = v.rejected;
          distinct = v.distinct;
        },
      )

-- A runner whose events ended without its stop.
pub lost_total :
    (m : RunnerManager) (id now : ℕ)
    → IsConsistent m
    → has id m.lifecycle_aggregator ≡ true
    → IsLate m now
    → Succeeds (
        handle_runner_lost
          (record m { lifecycle_aggregator = remove id m.lifecycle_aggregator })
          id
          now)
unfolding handle_runner_lost release_runner
lost_total m id now v h late =
    let (c, chunk) = chunk_of m id v (v.listening id h) in
    let apart = not_rejected m id v h in
    let lost = failed-IsForgotten m.chunk_planner id c v.planner chunk in
    let m₁ : RunnerManager = record m {
      lifecycle_aggregator = remove id m.lifecycle_aggregator;
      meters = remove id m.meters;
    } in
    let m₂ : RunnerManager = record m₁ { chunk_planner = failed_planner m id } in
    let (m₃, done, same) =
      record_in_sampler_total m₂ (lost_outcome (is_connecting m id)) now late in
    rw (fail_chunk_total m₁ id c v.planner chunk, handle_runner_lost, done)
      (
        _,
        _,
        refl,
        subst (λ x. IsConsistent (release_runner x id)) (sym same)
            (dismissed-IsConsistent id m _ v (
              gone-IsDismissed m id _ _ _ _ m₃.runner_outcome_sampler lost
                (λ j. ground (
                  arith,
                  get-remove j id m.lifecycle_aggregator,
                  get-remove j id (remove id m.lifecycle_aggregator),
                ))
                apart)),
      )

-- The first of the rejected spawns is taken out.
first-IsReported :
    (id : ℕ) (message : Text) (rest failures : List (ℕ × Text))
    → IsDistinct failures
    → failures ≡ (id, message) ∷ rest
    → IsReported id failures rest
first-IsReported id message rest failures d e =
    let (first, others) = subst IsDistinct e d in
    (λ j h. (rw e (ground (arith, h)), λ same. ground (arith, same, first, h)), others)

-- A runner whose spawn was rejected.
pub spawn_failed_total :
    (m : RunnerManager) (id : ℕ) (message : Text) (rest : List (ℕ × Text)) (now : ℕ)
    → IsConsistent m
    → m.spawn_failures ≡ (id, message) ∷ rest
    → IsLate m now
    → Succeeds (handle_spawn_failed (record m { spawn_failures = rest }) id message now)
unfolding handle_spawn_failed release_runner
spawn_failed_total m id message rest now v e late =
    let used = (v.rejected id (ground (arith, e))).0 in
    let (c, chunk) = chunk_of m id v used in
    let lost = failed-IsForgotten m.chunk_planner id c v.planner chunk in
    let m₁ : RunnerManager = release_runner (record m { spawn_failures = rest }) id in
    let (m', tick, done, same) =
      handle_connect_failed_total m₁ id c v.planner chunk now late (other message) in
    (
      m',
      tick,
      done,
      subst IsConsistent (sym same) (
          dismissed-IsConsistent id m _ v (
            gone-IsDismissed m id _ _ _ rest m'.runner_outcome_sampler lost
              (λ j. get-remove j id m.lifecycle_aggregator)
              (first-IsReported id message rest m.spawn_failures v.distinct e))),
    )
