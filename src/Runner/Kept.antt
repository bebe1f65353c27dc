-- ===== src/Runner/Kept.antt =====
-- run_loop.rs: a round leaves the runner with the input that its next phase polls.
use bolt_load.Prelude.{
  ℕ, ◌+◌, ◌≡◌, refl, sym, ◌∙◌, Bool, true, false, Option, none, some, List, [], ◌∷◌, ◌++◌, Result,
  ok, err, if◌then◌else◌, length,
}
use mathlib.Core.Path.{subst}
use bolt_load.Adapter.Error.{TaskError, AdapterError, stream_error, timeout, channel_closed}
use bolt_load.Manager.Types.{Bytes}
use bolt_load.Manager.Lifecycle.{LifecycleEvent}
use bolt_load.Runner.State.{
  TaskRunError, cancelled, failed_with, Control, RunResult, connected, connecting, TaskRunner,
  Continuation, validate, idle_timeout, broken, Emission, StreamingState, Phase, connecting_phase,
  publishing_started, stopped_phase, streaming, draining, publishing_stopped, RunnerLoop,
  apply_limit, limited, apply_control,
}
use bolt_load.Runner.Emit.{
  EmitResult, EmitEnd, Vacancy, consumer_gone, slot, cancel, vacancy, wait, take_controls,
  on_control, poll_emission, end_poll, push, emitted,
}
use bolt_load.Runner.Handle.{
  resume_after_emit, resume_item, control, buffer_fuel, on_signal, stop_on, handle_step,
}
use bolt_load.Runner.Poll.{
  ready, Sources, Polled, signalled, poll_connect, poll_read, connecting_step, reading_step,
  after_poll, poll_started, poll_stopped, poll_streaming, poll_drain, with_emission, poll_step,
  round,
}
use bolt_load.Runner.Inputs.{
  HasInput, Keeps, HasInput-same, polled-Keeps, begin_stop-Keeps, resume_after_emit-Keeps,
  flush-Keeps, buffer_item-Keeps,
}

-- Control signals leave the input alone.
limited_input : (r : TaskRunner) (x : Result (Option ℕ) TaskError) → (limited r x).0.input ≡ r.input
limited_input r (ok total) = refl
limited_input r (err error) = refl

on_control_input :
    (r : TaskRunner) (e : Emission) (c : Control) → (on_control r e c).0.input ≡ r.input
on_control_input r e (ok event) = limited_input r (apply_control r.total event)
on_control_input r e (err error) = refl

take_controls_input :
    (r : TaskRunner) (e : Emission) (cs : List Control) → (take_controls r e cs).0.input ≡ r.input
unfolding take_controls
take_controls_input r e [] = refl
take_controls_input r e (c ∷ cs) =
    either e.control_open
      (take_controls_input (on_control r e c).0 (on_control r e c).1 cs ∙ on_control_input r e c)
  where
    either :
        (b : Bool)
        → (take_controls (on_control r e c).0 (on_control r e c).1 cs).0.input ≡ r.input
        → (if b then take_controls (on_control r e c).0 (on_control r e c).1 cs else (r, e)).0.input
          ≡ r.input
    either true h = h
    either false h = refl

stop_on-Keeps :
    (l : RunnerLoop) (error : Option TaskRunError)
    → HasInput l.runner l.phase
    → Keeps (some (stop_on l error))
stop_on-Keeps l none h = h
stop_on-Keeps l (some error) h = begin_stop-Keeps l (err error)

on_signal-Keeps :
    (l : RunnerLoop) (c : Control) → HasInput l.runner l.phase → Keeps (some (on_signal l c))
on_signal-Keeps l (ok event) h =
    stop_on-Keeps (record l { runner = (apply_limit l.runner event).0 })
      (apply_limit l.runner event).1
      (HasInput-same l.runner (apply_limit l.runner event).0 l.phase
        (limited_input l.runner (apply_control l.runner.total event)) h)
on_signal-Keeps l (err error) h = begin_stop-Keeps l (err error)

signalled-Keeps :
    (l : RunnerLoop) (s : Sources) (other : Polled)
    → HasInput l.runner l.phase
    → Keeps (after_poll other)
    → Keeps (after_poll (signalled l s other))
unfolding handle_step
signalled-Keeps l s other h k =
    polled-Keeps s.cancel _ _ (begin_stop-Keeps l (err cancelled)) (signal s.signal)
  where
    signal :
        (x : Option Control)
        → Keeps (after_poll (elim x [ some event ↦ ready l (control event) | none ↦ other ]))
    signal none = k
    signal (some c) = on_signal-Keeps l c h

poll_connect-Keeps :
    (l : RunnerLoop) (x : Option (Result (Unit {0}) AdapterError))
    → HasInput l.runner l.phase
    → Keeps (after_poll (poll_connect l connecting x))
unfolding handle_step
poll_connect-Keeps l none h = h
poll_connect-Keeps l (some (ok stream)) h = refl
poll_connect-Keeps l (some (err source)) h =
    begin_stop-Keeps l (err (failed_with (stream_error source)))

-- The loop that has received an item.
abbrev received_by : TaskRunner → StreamingState → Bytes → RunnerLoop
received_by r s item = record {
  runner = record r { received = r.received ++ item };
  phase = streaming (record s { rest = some (record { bytes = item; offset = 0 }) });
}

poll_read-Keeps :
    (r : TaskRunner) (s : StreamingState) (x : Option (Option (Result Bytes AdapterError)))
    → r.input ≡ connected
    → Keeps (after_poll (poll_read (record { runner = r; phase = streaming s }) connected x))
unfolding handle_step
poll_read-Keeps r s none h = h
poll_read-Keeps r s (some none) h =
    flush-Keeps resume_item (record { runner = r; phase = streaming s }) s validate
      (buffer_item-Keeps buffer_fuel) h
poll_read-Keeps r s (some (some (err source))) h =
    flush-Keeps resume_item (record { runner = r; phase = streaming s }) s (broken source)
      (buffer_item-Keeps buffer_fuel) h
poll_read-Keeps r s (some (some (ok item))) h =
    buffer_item-Keeps buffer_fuel (received_by r s item) h

-- A result of an emission is handled with what was staged taken away.
emission_result-Keeps :
    (r : TaskRunner) (s : StreamingState) (next : Continuation) (x : EmitResult)
    → r.input ≡ connected
    → Keeps (
        resume_after_emit resume_item
          (record { runner = r; phase = streaming (record s { staged = none }) })
          next
          x)
emission_result-Keeps r s next x h =
    resume_after_emit-Keeps resume_item
      (record { runner = r; phase = streaming (record s { staged = none }) }) next x
      (buffer_item-Keeps buffer_fuel) h

pushed-Keeps :
    (l : RunnerLoop) (r : TaskRunner) (s : StreamingState) (e : Emission) (next : Continuation)
    (frame : Option Bytes) (took : Bool)
    → r.input ≡ connected
    → Keeps (after_poll (with_emission l s next (emitted (push r e frame took))))
unfolding handle_step
pushed-Keeps l r s e next none took h = tt
pushed-Keeps l r s e next (some frame) false h = tt
pushed-Keeps l r s e next (some frame) true h =
    emission_result-Keeps
      (record r { downloaded = r.downloaded + length frame; delivered = r.delivered ++ frame }) s
      next (ok e.deferred) h

end_poll-Keeps :
    (l : RunnerLoop) (r : TaskRunner) (s : StreamingState) (e : Emission) (next : Continuation)
    (last : EmitEnd)
    → r.input ≡ connected
    → Keeps (after_poll (with_emission l s next (end_poll r e last)))
unfolding handle_step
end_poll-Keeps l r s e next cancel h = emission_result-Keeps r s next (err cancelled) h
end_poll-Keeps l r s e next (vacancy consumer_gone) h =
    emission_result-Keeps r s next (err (failed_with channel_closed)) h
end_poll-Keeps l r s e next (vacancy (slot took)) h = pushed-Keeps l r s e next e.frame took h
end_poll-Keeps l r s e next wait h = h

emission-Keeps :
    (l : RunnerLoop) (r : TaskRunner) (s : StreamingState) (e : Emission) (next : Continuation)
    (cs : List Control) (last : EmitEnd)
    → r.input ≡ connected
    → Keeps (after_poll (with_emission l s next (poll_emission r e cs last)))
unfolding poll_emission handle_step
emission-Keeps l r s e next cs last h = either r.data_open
  where
    either :
        (b : Bool)
        → Keeps (
            after_poll (
              with_emission l s next (
                if b
                then end_poll (take_controls r e cs).0 (take_controls r e cs).1 last
                else some (r, e, some (err (failed_with channel_closed))))))
    either true =
        end_poll-Keeps l (take_controls r e cs).0 s (take_controls r e cs).1 next last
          (take_controls_input r e cs ∙ h)
    either false = emission_result-Keeps r s next (err (failed_with channel_closed)) h

streaming-Keeps :
    (r : TaskRunner) (s : StreamingState) (x : Option (Emission × Continuation)) (t : Sources)
    → r.input ≡ connected
    → Keeps (after_poll (poll_streaming (record { runner = r; phase = streaming s }) s x t))
unfolding handle_step
streaming-Keeps r s (some (e, next)) t h =
    emission-Keeps (record { runner = r; phase = streaming s }) r s e next t.signals t.emission h
streaming-Keeps r s none t h = signalled-Keeps l t (reading_step l t) h (
    polled-Keeps t.timer _ _
      (flush-Keeps resume_item l s idle_timeout (buffer_item-Keeps buffer_fuel) h)
      (subst (λ i. Keeps (after_poll (poll_read l i t.stream))) (sym h)
        (poll_read-Keeps r s t.stream h)))
  where
    l : RunnerLoop
    l = record { runner = r; phase = streaming s }

drain-Keeps :
    (r : TaskRunner) (result : RunResult) (s : Sources)
    → Keeps (after_poll (poll_drain (record { runner = r; phase = draining result }) s))
unfolding handle_step
drain-Keeps r result s =
    polled-Keeps r.data_open _ _
      (polled-Keeps s.cancel _ _ tt
        (polled-Keeps s.is_drained _ _ tt (polled-Keeps s.timer _ _ tt tt)))
      tt

started-Keeps :
    (r : TaskRunner) (room : Option Vacancy)
    → r.input ≡ connected
    → Keeps (after_poll (poll_started (record { runner = r; phase = publishing_started }) room))
unfolding handle_step
started-Keeps r none h = h
started-Keeps r (some consumer_gone) h =
    begin_stop-Keeps (record { runner = r; phase = publishing_started })
      (err (failed_with channel_closed))
started-Keeps r (some (slot false)) h = tt
started-Keeps r (some (slot true)) h = h

stopped-Keeps :
    (r : TaskRunner) (event event' : Option LifecycleEvent) (room : Option Vacancy)
    → Keeps (
        after_poll
          (poll_stopped (record { runner = r; phase = publishing_stopped event }) event' room))
unfolding handle_step
stopped-Keeps r event event' none = tt
stopped-Keeps r event none (some answer) = tt
stopped-Keeps r event (some e) (some consumer_gone) = tt
stopped-Keeps r event (some e) (some (slot false)) = tt
stopped-Keeps r event (some e) (some (slot true)) = tt

phase-Keeps :
    (r : TaskRunner) (phase : Phase) (s : Sources)
    → HasInput r phase
    → Keeps (round (record { runner = r; phase = phase }) s)
unfolding round poll_step handle_step
phase-Keeps r connecting_phase s h = signalled-Keeps l s (connecting_step l s) h (
    polled-Keeps s.timer _ _ (begin_stop-Keeps l (err (failed_with timeout))) (
      subst (λ i. Keeps (after_poll (poll_connect l i s.connection))) (sym h)
        (poll_connect-Keeps l s.connection h)))
  where
    l : RunnerLoop
    l = record { runner = r; phase = connecting_phase }
phase-Keeps r publishing_started s h = started-Keeps r s.room h
phase-Keeps r stopped_phase s h = tt
phase-Keeps r (streaming state) s h = streaming-Keeps r state state.staged s h
phase-Keeps r (draining result) s h = drain-Keeps r result s
phase-Keeps r (publishing_stopped event) s h = stopped-Keeps r event event s.room

-- A round leaves the runner with what its next phase polls.
pub round-Keeps : (l : RunnerLoop) (s : Sources) → HasInput l.runner l.phase → Keeps (round l s)
round-Keeps l s h = phase-Keeps l.runner l.phase s h
