-- ===== src/Manager/Data.antt =====
-- runner_manager/data.rs: the data frames of the runners; and `poll_tick` of runner_manager.rs.
use bolt_load.Prelude.{
  ℕ, zero, suc, ◌+◌, ◌>>=◌, Bool, Option, none, some, List, [], ◌∷◌, if◌then◌else◌, length,
  is_empty, sub64,
}
use bolt_load.OrdMap.{get, insert, remove}
use bolt_load.Planner.State.{update_progress}
use bolt_load.Manager.Types.{
  Bytes, DownloadedChunk, RunnerManager, RunnerTick, tick_downloading, with_chunk,
}
use bolt_load.Manager.State.{expect}
use bolt_load.Manager.Lifecycle.{Polled, item, closed, nothing, LifecycleEvent, poll_lifecycle}

-- `Bytes::truncate`.
unfoldable pub truncate : ℕ → Bytes → Bytes
truncate zero bs = []
truncate (suc n) [] = []
truncate (suc n) (b ∷ bs) = b ∷ truncate n bs

abbrev pub or_zero : Option ℕ → ℕ
or_zero none = 0
or_zero (some n) = n

-- `*meters.entry(runner_id).or_insert(0) += bytes_len`.
abbrev pub meter : ℕ → ℕ → List (ℕ × ℕ) → List (ℕ × ℕ)
meter runner_id bytes_len meters =
    insert runner_id (or_zero (get runner_id meters) + bytes_len) meters

unfoldable pub handle_data_frame :
    RunnerManager → ℕ → Bytes → Option (RunnerManager × DownloadedChunk)
unfolding update_progress truncate
handle_data_frame m runner_id frame =
    let (p, result) = update_progress m.chunk_planner runner_id (length frame) in
    do
      fixed ← expect result
      some (
        record m { chunk_planner = p; meters = meter runner_id (length frame) m.meters },
        record { range = fixed; bytes = truncate (sub64 fixed.end fixed.start) frame },
      )

-- The match on what the group of streams returned; a stream that ended is unregistered.
abbrev pub polled_frame : RunnerManager → Polled Bytes → Option (RunnerManager × Option RunnerTick)
polled_frame m (item runner_id frame) = do
  (m', chunk) ← handle_data_frame m runner_id frame
  some (m', some (with_chunk chunk))
polled_frame m (closed runner_id) =
    some (record m { data_aggregator = remove runner_id m.data_aggregator }, some tick_downloading)
polled_frame m nothing = some (m, none)

-- `poll_data`, with `DataAggregator::poll_next`.
unfoldable pub poll_data : RunnerManager → Polled Bytes → Option (RunnerManager × Option RunnerTick)
unfolding handle_data_frame
poll_data m polled = if is_empty m.data_aggregator then some (m, none) else polled_frame m polled

-- What `poll_tick` does after the lifecycle.
abbrev pub after_lifecycle :
    RunnerManager
    → Option RunnerTick
    → Bool
    → Polled Bytes
    → Option (RunnerManager × Option RunnerTick)
after_lifecycle m (some t) data_enabled frames = some (m, some t)
after_lifecycle m none data_enabled frames =
    if data_enabled then poll_data m frames else some (m, none)

-- `poll_tick`: the tick is `none` while pending.
unfoldable pub poll_tick :
    RunnerManager
    → Bool
    → Polled LifecycleEvent
    → Polled Bytes
    → ℕ
    → Option (RunnerManager × Option RunnerTick)
unfolding poll_lifecycle poll_data
poll_tick m data_enabled lifecycle frames now = do
  (m', tick) ← poll_lifecycle m lifecycle now
  after_lifecycle m' tick data_enabled frames
