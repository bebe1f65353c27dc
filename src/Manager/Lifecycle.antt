-- ===== src/Manager/Lifecycle.antt =====
-- runner_manager/lifecycle.rs: what the manager does with the events of a runner's lifecycle. The streams
-- of a group belong to a library: what a group's poll returns is an argument.
use bolt_load.Prelude.{
  ℕ, ◌>>=◌, Bool, true, false, Option, none, some, List, [], ◌∷◌, if◌then◌else◌, is_empty,
}
use bolt_load.OrdMap.{get, insert, remove}
use bolt_load.Adapter.Error.{
  Text, TaskError, is_retryable, channel_closed, exceeded_total_size, other,
}
use bolt_load.Planner.State.{mark_running, mark_failed}
use bolt_load.Planner.Queries.{is_complete}
use bolt_load.Strategy.Policy.{AttemptFailure}
use bolt_load.Strategy.Sampler.{
  RunnerOutcome, connect_failed, stream_closed, FailureKind, retryable, unretryable,
}
use bolt_load.Manager.Types.{
  RunnerManager, RunnerTick, tick_downloading, tick_finished, with_failure, is_attempt_retryable,
  is_cancelled,
}
use bolt_load.Manager.State.{
  is_connecting, release_runner, mark_runner_completed, record_in_sampler, expect,
}

pub data StoppedReason : Type 0 where
  finished : StoppedReason
  failed : TaskError → StoppedReason

pub data LifecycleEvent : Type 0 where
  started : LifecycleEvent
  stopped : StoppedReason → LifecycleEvent

-- `Poll<Option<RunnerStreamEvent<E>>>` of a group: a runner's event, its end, or nothing yet.
pub data Polled (E : Type 0) : Type 0 where
  item : ℕ → E → Polled E
  closed : ℕ → Polled E
  nothing : Polled E

abbrev pub failure_kind : Bool → FailureKind
failure_kind true = retryable
failure_kind false = unretryable

-- `mark_failed(…).expect(…)`.
unfoldable pub fail_chunk : RunnerManager → ℕ → Option RunnerManager
unfolding mark_failed
fail_chunk m runner_id =
    let (p, result) = mark_failed m.chunk_planner runner_id in
    do _ ← expect result; some (record m { chunk_planner = p })

-- The failure that is reported for an attempt.
abbrev pub attempt : ℕ → TaskError → AttemptFailure
attempt runner_id error = record {
  runner_id = runner_id;
  error = error;
  retryable = is_attempt_retryable error;
}

-- The end of both failure paths: a cancelled attempt is not reported.
unfoldable pub report :
    RunnerManager → ℕ → TaskError → RunnerOutcome → ℕ → Option (RunnerManager × RunnerTick)
unfolding record_in_sampler
report m runner_id error outcome now =
    if is_cancelled error
    then some (m, tick_downloading)
    else (record_in_sampler m outcome now >>= λ m'.
        some (m', with_failure (attempt runner_id error)))

unfoldable pub handle_connect_failed :
    RunnerManager → ℕ → TaskError → ℕ → Option (RunnerManager × RunnerTick)
unfolding fail_chunk report
handle_connect_failed m runner_id error now = do
  m' ← fail_chunk m runner_id
  report m' runner_id error (connect_failed (failure_kind (is_attempt_retryable error))) now

-- `Started`.
unfoldable pub handle_started : RunnerManager → ℕ → Option (RunnerManager × RunnerTick)
unfolding mark_running
handle_started m runner_id =
    let (p, marked) = mark_running m.chunk_planner runner_id in
    do
      _ ← expect marked
      data_rx ← get runner_id m.connecting_data
      some (
        record m {
          chunk_planner = p;
          connecting_data = remove runner_id m.connecting_data;
          data_aggregator = insert runner_id data_rx m.data_aggregator;
        },
        tick_downloading,
      )

-- The error of a runner that stopped before it connected.
abbrev pub connect_error : StoppedReason → TaskError
connect_error finished = channel_closed
connect_error (failed error) = error

abbrev pub completed_tick : Bool → RunnerTick
completed_tick true = tick_finished
completed_tick false = tick_downloading

unfoldable pub handle_completed : RunnerManager → ℕ → ℕ → Option (RunnerManager × RunnerTick)
unfolding mark_runner_completed
handle_completed m runner_id now = do
  (m', done) ← mark_runner_completed m runner_id now
  some (m', completed_tick done)

-- A runner that failed after it connected.
unfoldable pub handle_failed :
    RunnerManager → ℕ → TaskError → ℕ → Option (RunnerManager × RunnerTick)
unfolding fail_chunk report
handle_failed m runner_id kind now = do
  m' ← fail_chunk m runner_id
  report m' runner_id kind (stream_closed (failure_kind (is_retryable kind))) now

abbrev pub is_exceeded : TaskError → Bool
is_exceeded exceeded_total_size = true
is_exceeded _ = false

-- The match on the reason of a runner that had connected.
abbrev pub handle_connected :
    RunnerManager → ℕ → StoppedReason → ℕ → Option (RunnerManager × RunnerTick)
handle_connected m runner_id finished now = handle_completed m runner_id now
handle_connected m runner_id (failed kind) now =
    if is_exceeded kind
    then handle_completed m runner_id now
    else handle_failed m runner_id kind now

-- `Stopped`: the entry of the meters goes, and the runner is released, before the planner is told.
abbrev pub released : RunnerManager → ℕ → RunnerManager
released m runner_id = release_runner (record m { meters = remove runner_id m.meters }) runner_id

unfoldable pub handle_lifecycle :
    RunnerManager → ℕ → LifecycleEvent → ℕ → Option (RunnerManager × RunnerTick)
unfolding handle_started release_runner handle_connect_failed handle_completed handle_failed
handle_lifecycle m runner_id started now = handle_started m runner_id
handle_lifecycle m runner_id (stopped reason) now =
    if is_connecting m runner_id
    then handle_connect_failed (released m runner_id) runner_id (connect_error reason) now
    else handle_connected (released m runner_id) runner_id reason now

unfoldable pub handle_spawn_failed :
    RunnerManager → ℕ → Text → ℕ → Option (RunnerManager × RunnerTick)
unfolding release_runner handle_connect_failed
handle_spawn_failed m runner_id message now =
    handle_connect_failed (release_runner m runner_id) runner_id (other message) now

abbrev pub lost_outcome : Bool → RunnerOutcome
lost_outcome true = connect_failed retryable
lost_outcome false = stream_closed retryable

unfoldable pub handle_runner_lost : RunnerManager → ℕ → ℕ → Option (RunnerManager × RunnerTick)
unfolding fail_chunk record_in_sampler release_runner is_complete
handle_runner_lost m runner_id now =
    let outcome = lost_outcome (is_connecting m runner_id) in
    do
      m' ← fail_chunk (record m { meters = remove runner_id m.meters }) runner_id
      m'' ← record_in_sampler m' outcome now
      some (
        release_runner m'' runner_id,
        if is_complete m''.chunk_planner
            then tick_finished
            else with_failure
                (record { runner_id = runner_id; error = channel_closed; retryable = true }),
      )

-- `handle_lifecycle_stream_event`, on what the group of streams returned; a stream that ended leaves the
-- aggregator's map. The tick is `none` while pending.
abbrev pub polled_event :
    RunnerManager → Polled LifecycleEvent → ℕ → Option (RunnerManager × Option RunnerTick)
polled_event m (item runner_id event) now = do
  (m', tick) ← handle_lifecycle m runner_id event now
  some (m', some tick)
polled_event m (closed runner_id) now = do
  (m', tick) ←
      handle_runner_lost
        (record m { lifecycle_aggregator = remove runner_id m.lifecycle_aggregator }) runner_id now
  some (m', some tick)
polled_event m nothing now = some (m, none)

-- `LifecycleAggregator::poll_next` and what is done with its event.
unfoldable pub poll_aggregator :
    RunnerManager → Polled LifecycleEvent → ℕ → Option (RunnerManager × Option RunnerTick)
unfolding handle_lifecycle handle_runner_lost
poll_aggregator m polled now =
    if is_empty m.lifecycle_aggregator then some (m, none) else polled_event m polled now

-- A rejected spawn comes first: `take_spawn_failure` on the queue, else the aggregator.
abbrev pub first_failure :
    RunnerManager
    → List (ℕ × Text)
    → Polled LifecycleEvent
    → ℕ
    → Option (RunnerManager × Option RunnerTick)
first_failure m [] polled now = poll_aggregator m polled now
first_failure m ((runner_id, message) ∷ rest) polled now = do
  (m', tick) ← handle_spawn_failed (record m { spawn_failures = rest }) runner_id message now
  some (m', some tick)

unfoldable pub poll_lifecycle :
    RunnerManager → Polled LifecycleEvent → ℕ → Option (RunnerManager × Option RunnerTick)
unfolding handle_spawn_failed poll_aggregator
poll_lifecycle m polled now = first_failure m m.spawn_failures polled now
