-- ===== src/Runner/Poll.antt =====
-- run_loop.rs: `poll_step`, which asks the sources of the phase in order, and `poll_run`.
use bolt_load.Prelude.{
  Bool, true, false, Option, none, some, List, [], ◌∷◌, ◌++◌, Result, ok, err, if◌then◌else◌,
}
use bolt_load.Adapter.Error.{AdapterError, channel_closed}
use bolt_load.Manager.Types.{Bytes}
use bolt_load.Manager.Lifecycle.{LifecycleEvent, started}
use bolt_load.Runner.State.{
  failed_with, Control, RunnerInput, connected, connecting, abandoned, Continuation, Emission,
  StreamingState, Phase, connecting_phase, publishing_started, stopped_phase, streaming, draining,
  publishing_stopped, RunnerLoop,
}
use bolt_load.Runner.Emit.{EmitEnd, Emitting, Vacancy, consumer_gone, slot, poll_emission}
use bolt_load.Runner.Handle.{
  drained, drain_cancelled, timed_out, Step, connected_to, connect_timeout, started_published,
  cancelled_now, control, idle_fired, download, emitted, drained_to, stopped_published, handle_step,
}

-- What the sources would say to a poll: the cancellation, the next control signal, the timers, the connection,
-- the stream, what an emission sees, the lifecycle channel once it is ready, and
-- whether the data channel is empty or its consumer gone.
pub record Sources : Type 0 where
  pub cancel : Bool
  pub signal : Option Control
  pub timer : Bool
  pub connection : Option (Result (Unit {0}) AdapterError)
  pub stream : Option (Option (Result Bytes AdapterError))
  pub signals : List Control
  pub emission : EmitEnd
  pub room : Option Vacancy
  pub is_drained : Bool

-- A poll is pending, or has a step; the outer `none` is a panic.
abbrev pub Polled : Type 0
Polled = Option (RunnerLoop × Option Step)

abbrev pub ready : RunnerLoop → Step → Polled
ready l step = some (l, some step)

-- The first two sources of a phase that reads.
abbrev pub signalled : RunnerLoop → Sources → Polled → Polled
signalled l s other =
    if s.cancel
    then ready l cancelled_now
    else (elim s.signal [ some event ↦ ready l (control event) | none ↦ other ])

-- `poll_connect`, on what the runner reads from: `none` is its `unreachable!`.
abbrev pub poll_connect :
    RunnerLoop → RunnerInput → Option (Result (Unit {0}) AdapterError) → Polled
poll_connect l connecting none = some (l, none)
poll_connect l connecting (some result) = ready l (connected_to result)
poll_connect l connected connection = none
poll_connect l abandoned connection = none

abbrev pub connecting_step : RunnerLoop → Sources → Polled
connecting_step l s =
    if s.timer then ready l connect_timeout else poll_connect l l.runner.input s.connection

-- `poll_read`, likewise.
abbrev pub poll_read :
    RunnerLoop → RunnerInput → Option (Option (Result Bytes AdapterError)) → Polled
poll_read l connected none = some (l, none)
poll_read l connected (some item) = ready l (download item)
poll_read l connecting stream = none
poll_read l abandoned stream = none

abbrev pub reading_step : RunnerLoop → Sources → Polled
reading_step l s = if s.timer then ready l idle_fired else poll_read l l.runner.input s.stream

abbrev pub publish : RunnerLoop → LifecycleEvent → RunnerLoop
publish l event = record l {
  runner = record l.runner { published = l.runner.published ++ event ∷ [] };
}

-- `poll_started`, with `poll_publish`: a slot that another producer has filled is a panic.
abbrev pub poll_started : RunnerLoop → Option Vacancy → Polled
poll_started l none = some (l, none)
poll_started l (some (slot false)) = none
poll_started l (some consumer_gone) = ready l (started_published (err (failed_with channel_closed)))
poll_started l (some (slot true)) = ready (publish l started) (started_published (ok tt))

-- `poll_stopped`, with `poll_publish`: a consumer that is gone misses the event. A second poll for the
-- same event is a panic.
abbrev pub poll_stopped : RunnerLoop → Option LifecycleEvent → Option Vacancy → Polled
poll_stopped l event none = some (l, none)
poll_stopped l none (some answer) = none
poll_stopped l (some event) (some consumer_gone) =
    ready (record l { phase = publishing_stopped none }) stopped_published
poll_stopped l (some event) (some (slot false)) = none
poll_stopped l (some event) (some (slot true)) =
    ready (publish (record l { phase = publishing_stopped none }) event) stopped_published

abbrev pub with_emission : RunnerLoop → StreamingState → Continuation → Option Emitting → Polled
with_emission l s next none = none
with_emission l s next (some (r, e, result)) = some (
  record { runner = r; phase = streaming (record s { staged = some (e, next) }) },
  elim result [ none ↦ none | some x ↦ some (emitted x) ],
)

-- Emitting while a buffer is staged, else reading.
abbrev pub poll_streaming :
    RunnerLoop → StreamingState → Option (Emission × Continuation) → Sources → Polled
poll_streaming l s none t = signalled l t (reading_step l t)
poll_streaming l s (some (e, next)) t =
    with_emission l s next (poll_emission l.runner e t.signals t.emission)

abbrev pub poll_drain : RunnerLoop → Sources → Polled
poll_drain l s =
    if l.runner.data_open
    then (if s.cancel
        then ready l (drained_to drain_cancelled)
        else if s.is_drained
        then ready l (drained_to drained)
        else if s.timer
        then ready l (drained_to timed_out)
        else some (l, none))
    else ready l (drained_to drained)

abbrev pub poll_phase : RunnerLoop → Phase → Sources → Polled
poll_phase l connecting_phase s = signalled l s (connecting_step l s)
poll_phase l publishing_started s = poll_started l s.room
poll_phase l (streaming state) s = poll_streaming l state state.staged s
poll_phase l (draining result) s = poll_drain l s
poll_phase l (publishing_stopped event) s = poll_stopped l event s.room
poll_phase l stopped_phase s = none

unfoldable pub poll_step : RunnerLoop → Sources → Polled
unfolding poll_emission
poll_step l s = poll_phase l l.phase s

abbrev pub is_stopped : Phase → Bool
is_stopped stopped_phase = true
is_stopped _ = false

abbrev pub after_poll : Polled → Option RunnerLoop
after_poll none = none
after_poll (some (l, none)) = some l
after_poll (some (l, some step)) = handle_step l step

-- One round of the loop of `poll_run`, or a poll that is pending; a loop that has stopped is not polled.
unfoldable pub round : RunnerLoop → Sources → Option RunnerLoop
unfolding poll_step handle_step
round l s = if is_stopped l.phase then some l else after_poll (poll_step l s)

abbrev pub rounds_from : Option RunnerLoop → List Sources → Option RunnerLoop
rounds_from none rest = none
rounds_from (some l) [] = some l
rounds_from (some l) (s ∷ rest) = rounds_from (round l s) rest
