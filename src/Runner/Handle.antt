-- ===== src/Runner/Handle.antt =====
-- run_loop.rs and run_loop/stream.rs: what the loop does with the event that a poll selected. `none` is a
-- panic: an `unreachable!`, an `expect`, or no fuel left.
use bolt_load.Prelude.{
  ℕ, zero, suc, ◌+◌, ◌-◌, false, Option, none, some, [], ◌∷◌, ◌++◌, Result, ok, err, leb, ◌==◌,
  if◌then◌else◌, length, is_empty, min,
}
use bolt_load.Adapter.Error.{AdapterError, timeout, stream_error}
use bolt_load.Manager.Types.{Bytes}
use bolt_load.Manager.Data.{truncate}
use bolt_load.Runner.State.{
  TaskRunError, cancelled, failed_with, Control, RunResult, connected, Continuation, resume_rest,
  validate, idle_timeout, broken, Emission, new_emission, ItemCursor, StreamingState, new_streaming,
  Phase, publishing_started, stopped_phase, streaming, draining, RunnerLoop, buffer_size, allowance,
  validate_size, apply_limit, begin_stop, publish_stopped,
}
use bolt_load.Runner.Emit.{EmitResult}

pub data DrainOutcome : Type 0 where
  drained drain_cancelled timed_out : DrainOutcome

pub data Step : Type 0 where
  connected_to : Result (Unit {0}) AdapterError → Step
  connect_timeout : Step
  started_published : RunResult → Step
  cancelled_now : Step
  control : Control → Step
  idle_fired : Step
  download : Option (Result Bytes AdapterError) → Step
  emitted : EmitResult → Step
  drained_to : DrainOutcome → Step
  stopped_published : Step

abbrev pub at_phase : RunnerLoop → Phase → RunnerLoop
at_phase l phase = record l { phase = phase }

-- `resume_after_emit`; `resume` is `resume_item`.
abbrev pub resume_after_emit :
    (RunnerLoop → Option RunnerLoop) → RunnerLoop → Continuation → EmitResult → Option RunnerLoop
resume_after_emit resume l next (err error) = some (begin_stop l (err error))
resume_after_emit resume l (broken source) (ok deferred) =
    some (begin_stop l (err (failed_with (stream_error source))))
resume_after_emit resume l resume_rest (ok (some error)) = some (begin_stop l (err error))
resume_after_emit resume l validate (ok (some error)) = some (begin_stop l (err error))
resume_after_emit resume l idle_timeout (ok (some error)) = some (begin_stop l (err error))
resume_after_emit resume l resume_rest (ok none) = resume l
resume_after_emit resume l validate (ok none) = some (begin_stop l (validate_size l.runner))
resume_after_emit resume l idle_timeout (ok none) = some (begin_stop l (err (failed_with timeout)))

-- `flush`, on the loop as it streams.
abbrev pub flush :
    (RunnerLoop → Option RunnerLoop)
    → RunnerLoop
    → StreamingState
    → Continuation
    → Option RunnerLoop
flush resume l s next =
    if is_empty s.buffer
    then resume_after_emit resume (at_phase l (streaming s)) next (ok none)
    else some (
        at_phase l
          (streaming (record s { buffer = []; staged = some (new_emission s.buffer, next) })))

-- `&bytes[from..from + count]`, within the bytes.
unfoldable pub skip : ℕ → Bytes → Bytes
skip zero bs = bs
skip (suc n) [] = []
skip (suc n) (b ∷ bs) = skip n bs

abbrev pub extend : Bytes → ItemCursor → ℕ → Bytes
extend buffer item count = buffer ++ truncate count (skip item.offset item.bytes)

-- `buffer_item` from the cursor on, with what the limit still allows.
abbrev pub buffer_cursor :
    (RunnerLoop → Option RunnerLoop)
    → RunnerLoop
    → StreamingState
    → ItemCursor
    → ℕ
    → Option RunnerLoop
buffer_cursor resume l s item allowed =
    let writable = min (length item.bytes - item.offset) allowed in
    let take = buffer_size - length s.buffer in
    if item.offset == length item.bytes
    then some (at_phase l (streaming (record s { rest = none })))
    else if leb (length s.buffer + writable) buffer_size
    then (if writable == allowed
        then flush resume l (record s { buffer = extend s.buffer item writable }) validate
        else some (
            at_phase l
              (streaming (record s { buffer = extend s.buffer item writable; rest = none }))))
    else flush resume l
        (record s {
          buffer = extend s.buffer item take;
          rest = some (record item { offset = item.offset + take });
        })
        resume_rest

abbrev pub buffer_rest :
    (RunnerLoop → Option RunnerLoop)
    → RunnerLoop
    → StreamingState
    → ℕ
    → Option ItemCursor
    → Option RunnerLoop
buffer_rest resume l s allowed none = none
buffer_rest resume l s allowed (some item) = buffer_cursor resume l s item allowed

abbrev pub buffer_streaming :
    (RunnerLoop → Option RunnerLoop) → RunnerLoop → Phase → Option RunnerLoop
buffer_streaming resume l (streaming s) =
    let allowed = allowance l.runner s.buffer in
    if allowed == 0 then flush resume l s validate else buffer_rest resume l s allowed s.rest
buffer_streaming resume l _ = none

-- `buffer_item`. It resumes itself only after a flush of an empty buffer; the fuel bounds that.
unfoldable pub buffer_item : ℕ → RunnerLoop → Option RunnerLoop
unfolding begin_stop truncate skip
buffer_item zero l = none
buffer_item (suc fuel) l = buffer_streaming (buffer_item fuel) l l.phase

abbrev pub buffer_fuel : ℕ
buffer_fuel = 1

-- `resume_item`; the idle timer starts anew.
abbrev pub resume_item : RunnerLoop → Option RunnerLoop
resume_item l = buffer_item buffer_fuel l

abbrev pub flush_phase : RunnerLoop → Phase → Continuation → Option RunnerLoop
flush_phase l (streaming s) next = flush resume_item l s next
flush_phase l _ next = none

-- `on_item`, on the bytes that the stream gave.
abbrev pub on_item : RunnerLoop → Phase → Bytes → Option RunnerLoop
on_item l (streaming s) item = buffer_item buffer_fuel (record {
  runner = record l.runner { received = l.runner.received ++ item };
  phase = streaming (record s { rest = some (record { bytes = item; offset = 0 }) });
})
on_item l _ item = none

abbrev pub resume_staged :
    RunnerLoop → StreamingState → Option (Emission × Continuation) → EmitResult → Option RunnerLoop
resume_staged l s none result = none
resume_staged l s (some (e, next)) result =
    resume_after_emit resume_item (at_phase l (streaming (record s { staged = none }))) next result

abbrev pub on_emitted : RunnerLoop → Phase → EmitResult → Option RunnerLoop
on_emitted l (streaming s) result = resume_staged l s s.staged result
on_emitted l _ result = none

abbrev pub drain_result : RunResult → DrainOutcome → RunResult
drain_result result drained = result
drain_result result drain_cancelled = err cancelled
drain_result result timed_out = err (failed_with timeout)

abbrev pub finish_drain : RunnerLoop → Phase → DrainOutcome → Option RunnerLoop
finish_drain l (draining result) outcome = some (publish_stopped l (drain_result result outcome))
finish_drain l _ outcome = none

abbrev pub stop_on : RunnerLoop → Option TaskRunError → RunnerLoop
stop_on l none = l
stop_on l (some error) = begin_stop l (err error)

abbrev pub on_signal : RunnerLoop → Control → RunnerLoop
on_signal l (ok event) =
    let (r, error) = apply_limit l.runner event in stop_on (record l { runner = r }) error
on_signal l (err error) = begin_stop l (err error)

unfoldable pub handle_step : RunnerLoop → Step → Option RunnerLoop
unfolding begin_stop buffer_item
handle_step l (connected_to (ok stream)) =
    some (record { runner = record l.runner { input = connected }; phase = publishing_started })
handle_step l (connected_to (err source)) =
    some (begin_stop l (err (failed_with (stream_error source))))
handle_step l connect_timeout = some (begin_stop l (err (failed_with timeout)))
handle_step l (started_published (ok done)) = some (at_phase l (streaming new_streaming))
handle_step l (started_published (err error)) = some (begin_stop l (err error))
handle_step l cancelled_now = some (begin_stop l (err cancelled))
handle_step l (control event) = some (on_signal l event)
handle_step l idle_fired = flush_phase l l.phase idle_timeout
handle_step l (download none) = flush_phase l l.phase validate
handle_step l (download (some (err source))) = flush_phase l l.phase (broken source)
handle_step l (download (some (ok item))) = on_item l l.phase item
handle_step l (emitted result) = on_emitted l l.phase result
handle_step l (drained_to outcome) = finish_drain l l.phase outcome
handle_step l stopped_published =
    some (record { runner = record l.runner { data_open = false }; phase = stopped_phase })
