-- ===== src/Manager/Types.antt =====
-- runner_manager.rs: the state of `RunnerManager`, its channels and its errors. A receiver
-- of a runner's events is named by a number.
use bolt_load.Prelude.{ℕ, Bool, true, false, ◌||◌, Option, none, some, List, []}
use bolt_load.Adapter.Error.{
  Text, TaskError, is_retryable, smaller_than_total_size, channel_closed, cancelled,
}
use bolt_load.Ids.Generator
use bolt_load.Ids.Generator.{Generator, next, release}
use bolt_load.Planner.Chunk.{Range, Error}
use bolt_load.Planner.State
use bolt_load.Planner.State.{
  ChunkPlanner, allocate_pending_chunk, get_runner_state, mark_finished, resize_runner_state,
}
use bolt_load.Strategy.Policy.{AttemptFailure}
use bolt_load.Strategy.Sampler.{RunnerOutcomeSampler}
use bolt_load.Sync.Slot.{Shared, channel}

abbrev pub Bytes : Type 0
Bytes = List ℕ

pub record DownloadedChunk : Type 0 where
  pub range : Range
  pub bytes : Bytes

pub record MeterSnapshot : Type 0 where
  pub runners : ℕ
  pub bytes : ℕ

-- `Paused` is not constructed.
pub data TaskState : Type 0 where
  downloading finished : TaskState

pub record RunnerTick : Type 0 where
  pub state : TaskState
  pub downloaded : Option DownloadedChunk
  pub failure : Option AttemptFailure

-- `RunnerTick::downloading` and its kin.
abbrev pub tick_downloading : RunnerTick
tick_downloading = record { state = downloading; downloaded = none; failure = none }

abbrev pub tick_finished : RunnerTick
tick_finished = record { state = finished; downloaded = none; failure = none }

abbrev pub with_chunk : DownloadedChunk → RunnerTick
with_chunk chunk = record { state = downloading; downloaded = some chunk; failure = none }

abbrev pub with_failure : AttemptFailure → RunnerTick
with_failure failure = record { state = downloading; downloaded = none; failure = some failure }

abbrev is_premature : TaskError → Bool
is_premature smaller_than_total_size = true
is_premature channel_closed = true
is_premature _ = false

abbrev pub is_attempt_retryable : TaskError → Bool
is_attempt_retryable error = is_retryable error || is_premature error

abbrev pub is_cancelled : TaskError → Bool
is_cancelled cancelled = true
is_cancelled _ = false

-- The sender of a slot, with what it shares with the runner, and whether the runner still has the receiver.
pub record LimitSender : Type 0 where
  pub slot : Shared
  pub receiver : Bool

abbrev pub limit_mailbox : LimitSender
limit_mailbox = record { slot = channel; receiver = true }

-- A mailbox whose receiver was dropped unread.
abbrev pub abandoned_mailbox : LimitSender
abandoned_mailbox = record limit_mailbox { receiver = false }

pub data SendError : Type 0 where
  runner_not_found receiver_gone : ℕ → SendError

pub data ResizeError : Type 0 where
  planner : Error → ResizeError
  limit : SendError → ResizeError

pub record RunnerManager : Type 0 where
  pub id_generator : Generator
  pub chunk_planner : ChunkPlanner
  pub limit_senders : List (ℕ × LimitSender)
  -- The front first, with the message.
  pub spawn_failures : List (ℕ × Text)
  pub runner_outcome_sampler : RunnerOutcomeSampler
  -- The receivers by runner: of the lifecycle, of data while it connects, of data afterwards.
  pub lifecycle_aggregator : List (ℕ × ℕ)
  pub connecting_data : List (ℕ × ℕ)
  pub data_aggregator : List (ℕ × ℕ)
  pub meters : List (ℕ × ℕ)

-- The sampler of `RunnerOutcomeSampler::with_defaults` is an argument.
abbrev pub new : (total max_concurrency : ℕ) → RunnerOutcomeSampler → RunnerManager
new total max_concurrency sampler = record {
  id_generator = Generator.new max_concurrency;
  chunk_planner = State.new total;
  limit_senders = [];
  spawn_failures = [];
  runner_outcome_sampler = sampler;
  lifecycle_aggregator = [];
  connecting_data = [];
  data_aggregator = [];
  meters = [];
}
