-- ===== src/Manager/Release.antt =====
-- runner_manager/lifecycle.rs: what the handlers leave of the manager when a runner starts or ends.
use bolt_load.Prelude.{ℕ, ◌≤◌, ◌≡◌, refl, Option, some, le→leb, Bool-cases, inl, inr}
use bolt_load.Adapter.Error.{TaskError}
use bolt_load.Planner.Chunk.{ChunkState}
use bolt_load.Planner.State.{ChunkPlanner, get_runner_state, mark_failed, mark_finished}
use bolt_load.Planner.Valid as PlannerValid
use bolt_load.Planner.Release.{mark_failed_lem}
use bolt_load.Planner.Assigned.{mark_finished_lem}
use bolt_load.Strategy.Sampler.{
  RunnerOutcomeSampler, RunnerOutcome, cleanup_expired, record_outcome,
}
use bolt_load.Manager.Types.{RunnerManager, RunnerTick, tick_downloading, is_cancelled}
use bolt_load.Manager.State.{mark_runner_completed, record_in_sampler}
use bolt_load.Manager.Lifecycle.{
  fail_chunk, report, handle_completed, handle_failed, handle_connect_failed,
}

-- What changes nothing but the sampler.
abbrev pub IsSampled : RunnerManager → RunnerManager → Type 0
IsSampled m m' = m' ≡ record m { runner_outcome_sampler = m'.runner_outcome_sampler }

-- The clock has run for at least the sampler's window.
abbrev pub IsLate : RunnerManager → ℕ → Type 0
IsLate m now = m.runner_outcome_sampler.time_window ≤ now

record_outcome_total :
    (s : RunnerOutcomeSampler) (outcome : RunnerOutcome) (now : ℕ)
    → s.time_window ≤ now
    → (s' : RunnerOutcomeSampler) × (record_outcome s outcome now ≡ some s')
unfolding record_outcome cleanup_expired
record_outcome_total s outcome now late =
    let open_window = le→leb s.time_window now late in
    rw (open_window, record_outcome, cleanup_expired) (_, refl)

pub record_in_sampler_total :
    (m : RunnerManager) (outcome : RunnerOutcome) (now : ℕ)
    → IsLate m now
    → (m' : RunnerManager) × (record_in_sampler m outcome now ≡ some m') × IsSampled m m'
unfolding record_in_sampler
record_in_sampler_total m outcome now late =
    let (s', done) = record_outcome_total m.runner_outcome_sampler outcome now late in
    rw (done, record_in_sampler) (_, refl, refl)

-- `mark_failed` of a runner that has a chunk.
pub fail_chunk_total :
    (m : RunnerManager) (id : ℕ) (c : ChunkState)
    → PlannerValid.IsValid m.chunk_planner
    → get_runner_state m.chunk_planner id ≡ some c
    → fail_chunk m id ≡ some (record m { chunk_planner = (mark_failed m.chunk_planner id).0 })
unfolding fail_chunk
fail_chunk_total m id c v e =
    let done = (mark_failed_lem m.chunk_planner id c v e).0 in rw (done, fail_chunk) refl

pub report_total :
    (m : RunnerManager) (id : ℕ) (error : TaskError) (outcome : RunnerOutcome) (now : ℕ)
    → IsLate m now
    → (m' : RunnerManager) × (tick : RunnerTick) × (report m id error outcome now ≡ some (m', tick))
      × IsSampled m m'
unfolding report
report_total m id error outcome now late = elim (Bool-cases (is_cancelled error)) [
  | inl stop ↦ rw stop (m, tick_downloading, refl, refl)
  | inr go ↦
      let (m', done, same) = record_in_sampler_total m outcome now late in
      rw (go, done) (m', _, refl, same)
]

-- A handler that does not panic, and changes the planner and the sampler only.
abbrev pub Ends : RunnerManager → ChunkPlanner → Option (RunnerManager × RunnerTick) → Type 0
Ends m q r =
    (m' : RunnerManager) × (tick : RunnerTick) × (r ≡ some (m', tick))
    × IsSampled (record m { chunk_planner = q }) m'

abbrev pub failed_planner : RunnerManager → ℕ → ChunkPlanner
failed_planner m id = (mark_failed m.chunk_planner id).0

module _ (m : RunnerManager) (id : ℕ) (c : ChunkState)
    (valid : PlannerValid.IsValid m.chunk_planner)
    (chunk : get_runner_state m.chunk_planner id ≡ some c) (now : ℕ) (late : IsLate m now) where
  pub handle_connect_failed_total :
      (error : TaskError) → Ends m (failed_planner m id) (handle_connect_failed m id error now)
  unfolding handle_connect_failed
  handle_connect_failed_total error =
      rw (fail_chunk_total m id c valid chunk, handle_connect_failed)
        (report_total _ id error _ now late)

  pub handle_failed_total :
      (kind : TaskError) → Ends m (failed_planner m id) (handle_failed m id kind now)
  unfolding handle_failed
  handle_failed_total kind =
      rw (fail_chunk_total m id c valid chunk, handle_failed) (report_total _ id kind _ now late)

  pub handle_completed_total :
      Ends m (mark_finished m.chunk_planner id).0 (handle_completed m id now)
  unfolding handle_completed mark_runner_completed
  handle_completed_total =
      let marked = (mark_finished_lem m.chunk_planner id c valid chunk).0 in
      let (m', done, same) =
        record_in_sampler_total (record m { chunk_planner = (mark_finished m.chunk_planner id).0 })
          RunnerOutcome.completed now late in
      rw (marked, handle_completed, mark_runner_completed, done) (_, _, refl, same)
