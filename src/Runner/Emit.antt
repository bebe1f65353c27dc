-- ===== src/Runner/Emit.antt =====
-- run_loop/emit.rs: pushing a frame while control signals come. A poll sees the signals that have come, in
-- order, and then one of: the cancellation, the consumer's answer, or nothing.
use bolt_load.Prelude.{
  ◌+◌, Bool, true, false, Option, none, some, List, [], ◌∷◌, ◌++◌, Result, ok, err, if◌then◌else◌,
  length,
}
use bolt_load.Adapter.Error.{channel_closed}
use bolt_load.Manager.Types.{Bytes}
use bolt_load.Runner.State.{
  TaskRunError, cancelled, failed_with, Control, TaskRunner, Emission, apply_limit,
}

abbrev pub EmitResult : Type 0
EmitResult = Result (Option TaskRunError) TaskRunError

-- What the producer of a ring buffer is told once it is ready: that the consumer is gone, or that a slot is
-- vacant; then what its next `try_push` does, whether the slot takes the item.
pub data Vacancy : Type 0 where
  consumer_gone : Vacancy
  slot : Bool → Vacancy

-- How a poll ends.
pub data EmitEnd : Type 0 where
  cancel : EmitEnd
  vacancy : Vacancy → EmitEnd
  wait : EmitEnd

-- Only the first error is kept.
abbrev pub keep_first : Option TaskRunError → Option TaskRunError → Option TaskRunError
keep_first (some e) error = some e
keep_first none error = error

-- `on_control`.
abbrev pub on_control : TaskRunner → Emission → Control → TaskRunner × Emission
on_control r e (ok event) =
    let (r', error) = apply_limit r event in
    (r', record e { deferred = keep_first e.deferred error })
on_control r e (err error) =
    (r, record e { control_open = false; deferred = keep_first e.deferred (some error) })

-- The signals are polled while the source of control is open.
unfoldable pub take_controls : TaskRunner → Emission → List Control → TaskRunner × Emission
take_controls r e [] = (r, e)
take_controls r e (c ∷ cs) =
    if e.control_open then (let (r', e') = on_control r e c in take_controls r' e' cs) else (r, e)

-- `poll_push` of a vacant channel; `none` is the panic of a frame that was pushed before, or of a slot that
-- another producer has filled.
abbrev pub push :
    TaskRunner → Emission → Option Bytes → Bool → Option (TaskRunner × Emission × EmitResult)
push r e none took = none
push r e (some frame) false = none
push r e (some frame) true = some (
  record r { downloaded = r.downloaded + length frame; delivered = r.delivered ++ frame },
  record e { frame = none; deferred = none },
  ok e.deferred,
)

-- The emission is pending, or has a result.
abbrev pub Emitting : Type 0
Emitting = TaskRunner × Emission × Option EmitResult

abbrev pub emitted : Option (TaskRunner × Emission × EmitResult) → Option Emitting
emitted none = none
emitted (some (r, e, result)) = some (r, e, some result)

abbrev pub end_poll : TaskRunner → Emission → EmitEnd → Option Emitting
end_poll r e cancel = some (r, e, some (err cancelled))
end_poll r e (vacancy consumer_gone) = some (r, e, some (err (failed_with channel_closed)))
end_poll r e (vacancy (slot took)) = emitted (push r e e.frame took)
end_poll r e wait = some (r, e, none)

-- `Emission::poll`.
unfoldable pub poll_emission : TaskRunner → Emission → List Control → EmitEnd → Option Emitting
unfolding take_controls
poll_emission r e controls last =
    if r.data_open
    then (let (r', e') = take_controls r e controls in end_poll r' e' last)
    else some (r, e, some (err (failed_with channel_closed)))
