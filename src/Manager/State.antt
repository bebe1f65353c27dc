-- ===== src/Manager/State.antt =====
-- runner_manager.rs: `RunnerManager` and the operations on it. `none` in a result is a panic. A receiver
-- of a runner's events is named by a number: only the aggregators' streams read from it.
use bolt_load.Prelude.{
  ℕ, ◌+◌, ◌>>=◌, Bool, true, false, Option, none, some, List, [], ◌∷◌, ◌++◌, Result, ok, err,
  if◌then◌else◌, length,
}
use bolt_load.OrdMap.{get, insert, remove}
use bolt_load.Adapter.Error.{Text}
use bolt_load.Ids.Generator.{Generator, next, release}
use bolt_load.Planner.Chunk.{
  Range, ChunkState, ChunkStatus, pending, Error, Resize, unchanged, shrunk,
}
use bolt_load.Planner.State.{
  ChunkPlanner, allocate_pending_chunk, get_runner_state, mark_finished, resize_runner_state,
}
use bolt_load.Planner.Queries.{is_complete}
use bolt_load.Planner.Guard.{PlannerGuard, new_guard, drop, commit}
use bolt_load.Strategy.Sampler.{RunnerOutcome, record_outcome}
use bolt_load.Sync.Slot.{Shared, send}
use bolt_load.Manager.Types.{
  MeterSnapshot, LimitSender, limit_mailbox, abandoned_mailbox, ResizeError, RunnerManager,
  runner_not_found, receiver_gone, planner, limit,
}

-- `values_mut().map(take).sum()`: the sum, and the entries afterwards.
unfoldable pub sum_meters : List (ℕ × ℕ) → ℕ
sum_meters [] = 0
sum_meters ((id, n) ∷ m) = n + sum_meters m

unfoldable pub zero_meters : List (ℕ × ℕ) → List (ℕ × ℕ)
zero_meters [] = []
zero_meters ((id, n) ∷ m) = (id, 0) ∷ zero_meters m

unfoldable pub take_meters_snapshot : RunnerManager → RunnerManager × MeterSnapshot
unfolding sum_meters zero_meters
take_meters_snapshot m = (
  record m { meters = zero_meters m.meters },
  record { runners = length m.meters; bytes = sum_meters m.meters },
)

-- `allocate_runner`; the mailbox's receiver is the runner's.
abbrev pub with_mailbox : RunnerManager → Generator × Option ℕ → RunnerManager × Option ℕ
with_mailbox m (ids, none) = (record m { id_generator = ids }, none)
with_mailbox m (ids, some runner_id) = (
  record m { id_generator = ids; limit_senders = insert runner_id limit_mailbox m.limit_senders },
  some runner_id,
)

unfoldable pub allocate_runner : RunnerManager → RunnerManager × Option ℕ
unfolding next
allocate_runner m = with_mailbox m (next m.id_generator)

-- The sender that is removed is dropped, which closes the slot for the runner.
unfoldable pub release_runner : RunnerManager → ℕ → RunnerManager
unfolding release
release_runner m runner_id = record m {
  limit_senders = remove runner_id m.limit_senders;
  lifecycle_aggregator = remove runner_id m.lifecycle_aggregator;
  connecting_data = remove runner_id m.connecting_data;
  data_aggregator = remove runner_id m.data_aggregator;
  id_generator = (release m.id_generator runner_id).0;
}

abbrev pub allocated_runner_count : RunnerManager → ℕ
allocated_runner_count m = m.id_generator.allocated_count

abbrev is_pending : ChunkStatus → Bool
is_pending pending = true
is_pending _ = false

abbrev has_pending : Option ChunkState → Bool
has_pending none = false
has_pending (some c) = is_pending c.status

-- Whether the runner's chunk is pending.
abbrev pub is_connecting : RunnerManager → ℕ → Bool
is_connecting m runner_id = has_pending (get_runner_state m.chunk_planner runner_id)

unfoldable pub register_runner_channels :
    RunnerManager → ℕ → (lifecycle_rx data_rx : ℕ) → RunnerManager
register_runner_channels m runner_id lifecycle_rx data_rx =
    let m' : RunnerManager = record m {
      lifecycle_aggregator = insert runner_id lifecycle_rx m.lifecycle_aggregator;
    } in
    if is_connecting m' runner_id
    then record m' { connecting_data = insert runner_id data_rx m.connecting_data }
    else record m' { data_aggregator = insert runner_id data_rx m.data_aggregator }

-- What `spawn` returned for the runner is kept. A rejected spawn has dropped the receiver of the limits
-- with the runner.
abbrev pub record_spawned : RunnerManager → ℕ → Result (ℕ × ℕ) Text → RunnerManager
record_spawned m runner_id (ok (lifecycle_rx, data_rx)) =
    register_runner_channels m runner_id lifecycle_rx data_rx
record_spawned m runner_id (err message) = record m {
  spawn_failures = m.spawn_failures ++ (runner_id, message) ∷ [];
  limit_senders = insert runner_id abandoned_mailbox m.limit_senders;
}

-- The runner on its chunk, or the release of its id if the planner refused the range.
abbrev pub spawn_on :
    RunnerManager → ℕ → (ℕ → Result (ℕ × ℕ) Text) → ChunkPlanner × Bool → RunnerManager × Bool
spawn_on m runner_id spawn (p, false) =
    (release_runner (record m { chunk_planner = p }) runner_id, false)
spawn_on m runner_id spawn (p, true) =
    (record_spawned (record m { chunk_planner = p }) runner_id (spawn runner_id), true)

abbrev pub spawn_registered :
    RunnerManager × Option ℕ → Range → (ℕ → Result (ℕ × ℕ) Text) → RunnerManager × Bool
spawn_registered (m, none) r spawn = (m, false)
spawn_registered (m, some runner_id) r spawn =
    spawn_on m runner_id spawn (allocate_pending_chunk m.chunk_planner r runner_id)

-- `spawn_runner_with_chunk`: whether it returned `Some(())`.
unfoldable pub spawn_runner_with_chunk :
    RunnerManager → Range → (ℕ → Result (ℕ × ℕ) Text) → RunnerManager × Bool
unfolding allocate_runner release_runner register_runner_channels
spawn_runner_with_chunk m r spawn = spawn_registered (allocate_runner m) r spawn

-- The end of `resize_runner`, with the guard on the planner that was resized: `none` is a panic.
abbrev pub sent_limit :
    RunnerManager
    → PlannerGuard
    → ℕ
    → LimitSender
    → Option (Shared × Bool)
    → Option (RunnerManager × Result (Unit {0}) ResizeError)
sent_limit m g id sender none = none
sent_limit m g id sender (some (slot, false)) =
    some (record m { chunk_planner = drop g }, err (limit (receiver_gone id)))
sent_limit m g id sender (some (slot, true)) = some (
  record m {
    chunk_planner = commit g;
    limit_senders = insert id (record sender { slot = slot }) m.limit_senders;
  },
  ok tt,
)

-- The limit goes to the runner's sender, if there is one.
abbrev pub send_to :
    RunnerManager
    → PlannerGuard
    → ℕ
    → ℕ
    → Option LimitSender
    → Option (RunnerManager × Result (Unit {0}) ResizeError)
send_to m g id new_limit none =
    some (record m { chunk_planner = drop g }, err (limit (runner_not_found id)))
send_to m g id new_limit (some sender) =
    sent_limit m g id sender (send sender.slot sender.receiver new_limit)

-- The match on the planner's answer; each early return drops the guard.
abbrev pub resized :
    RunnerManager
    → PlannerGuard
    → ℕ
    → Result Resize Error
    → Option (RunnerManager × Result (Unit {0}) ResizeError)
resized m g id (err e) = some (record m { chunk_planner = drop g }, err (planner e))
resized m g id (ok unchanged) = some (record m { chunk_planner = drop g }, ok tt)
resized m g id (ok (shrunk new_limit)) = send_to m g id new_limit (get id m.limit_senders)

unfoldable pub resize_runner :
    RunnerManager → ℕ → ℕ → Option (RunnerManager × Result (Unit {0}) ResizeError)
unfolding new_guard drop commit resize_runner_state send
resize_runner m id new_size =
    let g = new_guard m.chunk_planner in
    let (p, answer) = resize_runner_state g.planner id new_size in
    resized m (record g { planner = p }) id answer

-- `record_completed`, `record_connect_failed` and `record_stream_closed` at a reading of the clock.
unfoldable pub record_in_sampler : RunnerManager → RunnerOutcome → ℕ → Option RunnerManager
unfolding record_outcome
record_in_sampler m outcome now = do
  sampler ← record_outcome m.runner_outcome_sampler outcome now
  some (record m { runner_outcome_sampler = sampler })

abbrev pub expect {ℓ κ} : {A : Type ℓ} {E : Type κ} → Result A E → Option A
expect (ok a) = some a
expect (err e) = none

unfoldable pub mark_runner_completed : RunnerManager → ℕ → ℕ → Option (RunnerManager × Bool)
unfolding record_in_sampler mark_finished is_complete
mark_runner_completed m runner_id now =
    let (p, marked) = mark_finished m.chunk_planner runner_id in
    do
      _ ← expect marked
      m' ← record_in_sampler (record m { chunk_planner = p }) RunnerOutcome.completed now
      some (m', is_complete p)
