-- ===== src/Runner/State.antt =====
-- runner/mod.rs, run_loop.rs and its children, and control.rs: the runner, the phases of its loop, and its
-- size limit. Timers are left out of the state: whether one has fired is a reading of a poll. Byte
-- counts stay below 2 ^ 64.
use bolt_load.Prelude.{
  ℕ, ◌+◌, ◌-◌, Bool, true, false, Option, none, some, List, [], Result, ok, err, ltb, ◌==◌,
  if◌then◌else◌, length, u64_mod,
}
use bolt_load.Adapter.Error.{
  TaskError, AdapterError, timeout, empty, exceeded_total_size, smaller_than_total_size,
  stream_error,
}
use bolt_load.Manager.Types.{Bytes}
use bolt_load.Manager.Lifecycle.{LifecycleEvent, stopped, finished, failed}

abbrev pub buffer_size : ℕ
buffer_size = 32768

pub data TaskRunError : Type 0 where
  cancelled : TaskRunError
  failed_with : TaskError → TaskRunError

abbrev pub RunResult : Type 0
RunResult = Result (Unit {0}) TaskRunError

-- `task::ControlEvent`.
pub data ControlEvent : Type 0 where
  limit_total : ℕ → ControlEvent

abbrev pub Control : Type 0
Control = Result ControlEvent TaskRunError

-- Where the runner reads from; the connection and the stream are read by a poll.
pub data RunnerInput : Type 0 where
  connected connecting abandoned : RunnerInput

-- The runner; `data_open` says whether it still has its data sender. The last three fields are what it
-- has told others: the bytes of the frames it pushed, the events it published, and the bytes that the
-- stream gave it.
pub record TaskRunner : Type 0 where
  pub total : Option ℕ
  pub downloaded : ℕ
  pub input : RunnerInput
  pub data_open : Bool
  pub delivered : Bytes
  pub published : List LifecycleEvent
  pub received : Bytes

-- Why a buffer is emitted.
pub data Continuation : Type 0 where
  resume_rest : Continuation
  validate : Continuation
  idle_timeout : Continuation
  broken : AdapterError → Continuation

pub record Emission : Type 0 where
  pub frame : Option Bytes
  pub deferred : Option TaskRunError
  pub control_open : Bool

abbrev pub new_emission : Bytes → Emission
new_emission bytes = record { frame = some bytes; deferred = none; control_open = true }

pub record ItemCursor : Type 0 where
  pub bytes : Bytes
  pub offset : ℕ

pub record StreamingState : Type 0 where
  pub buffer : Bytes
  pub rest : Option ItemCursor
  pub staged : Option (Emission × Continuation)

abbrev pub new_streaming : StreamingState
new_streaming = record { buffer = []; rest = none; staged = none }

pub data Phase : Type 0 where
  connecting_phase publishing_started stopped_phase : Phase
  streaming : StreamingState → Phase
  draining : RunResult → Phase
  publishing_stopped : Option LifecycleEvent → Phase

pub record RunnerLoop : Type 0 where
  pub runner : TaskRunner
  pub phase : Phase

abbrev pub first_phase : RunnerInput → Phase
first_phase connected = publishing_started
first_phase connecting = connecting_phase
first_phase abandoned = stopped_phase

-- `RunnerLoop::new`, on a runner as it is built.
abbrev pub new_loop : RunnerInput → Option ℕ → RunnerLoop
new_loop input total = record {
  runner = record {
    total = total;
    downloaded = 0;
    input = input;
    data_open = true;
    delivered = [];
    published = [];
    received = [];
  };
  phase = first_phase input;
}

-- `apply_control`: the new limit.
abbrev pub apply_control : Option ℕ → ControlEvent → Result (Option ℕ) TaskError
apply_control none (limit_total new_total) = ok none
apply_control (some current) (limit_total new_total) =
    if ltb new_total current then ok (some new_total) else err exceeded_total_size

-- `apply_limit`: the runner, and the error if there is one.
abbrev pub limited : TaskRunner → Result (Option ℕ) TaskError → TaskRunner × Option TaskRunError
limited r (ok total) = (record r { total = total }, none)
limited r (err error) = (r, some (failed_with error))

abbrev pub apply_limit : TaskRunner → ControlEvent → TaskRunner × Option TaskRunError
apply_limit r event = limited r (apply_control r.total event)

abbrev pub usize_max : ℕ
usize_max = u64_mod - 1

-- The bytes that may still be buffered.
abbrev pub allowance_of : Option ℕ → ℕ → ℕ → ℕ
allowance_of none downloaded buffered = usize_max
allowance_of (some total) downloaded buffered = total - (downloaded + buffered)

abbrev pub allowance : TaskRunner → Bytes → ℕ
allowance r buffer = allowance_of r.total r.downloaded (length buffer)

abbrev pub validate_total : Option ℕ → ℕ → RunResult
validate_total none downloaded = if ltb 0 downloaded then ok tt else err (failed_with empty)
validate_total (some total) downloaded =
    if total == downloaded
    then ok tt
    else if ltb downloaded total
    then err (failed_with smaller_than_total_size)
    else err (failed_with exceeded_total_size)

abbrev pub validate_size : TaskRunner → RunResult
validate_size r = validate_total r.total r.downloaded

-- `should_wait_data_drain`.
abbrev pub should_wait_data_drain : RunResult → Bool
should_wait_data_drain (ok done) = true
should_wait_data_drain (err cancelled) = false
should_wait_data_drain (err (failed_with exceeded_total_size)) = true
should_wait_data_drain (err (failed_with (stream_error source))) = true
should_wait_data_drain (err (failed_with timeout)) = true
should_wait_data_drain (err (failed_with _)) = false

abbrev pub stop_event : RunResult → LifecycleEvent
stop_event (ok done) = stopped finished
stop_event (err cancelled) = stopped (failed TaskError.cancelled)
stop_event (err (failed_with error)) = stopped (failed error)

abbrev pub publish_stopped : RunnerLoop → RunResult → RunnerLoop
publish_stopped l result = record l { phase = publishing_stopped (some (stop_event result)) }

abbrev pub is_connecting : Phase → Bool
is_connecting connecting_phase = true
is_connecting _ = false

abbrev pub abandon : RunnerLoop → RunnerLoop
abandon l =
    if is_connecting l.phase then record l { runner = record l.runner { input = abandoned } } else l

unfoldable pub begin_stop : RunnerLoop → RunResult → RunnerLoop
begin_stop l result =
    let l' = abandon l in
    if should_wait_data_drain result
    then record l' { phase = draining result }
    else publish_stopped l' result
