-- ===== src/Runner/Rounds.antt =====
-- run_loop.rs: one round of the loop, by the phase it starts in.
use bolt_load.Prelude.{
  ℕ, ◌≡◌, refl, sym, ◌∙◌, inl, inr, true, false, Option, none, some, List, ok, err, Bool-cases,
  if_true, if_false,
}
use mathlib.Core.Path.{subst}
use bolt_load.Adapter.Error.{channel_closed}
use bolt_load.Manager.Types.{Bytes}
use bolt_load.Runner.State.{
  TaskRunError, cancelled, failed_with, Control, TaskRunner, Continuation, Emission, StreamingState,
  streaming, RunnerLoop, begin_stop, apply_limit,
}
use bolt_load.Runner.Emit.{
  EmitEnd, consumer_gone, slot, cancel, vacancy, wait, poll_emission, end_poll, push, emitted,
}
use bolt_load.Runner.Handle.{control, on_signal, stop_on, handle_step}
use bolt_load.Runner.Poll.{Sources, signalled, after_poll, with_emission, ready, Polled}
use bolt_load.Runner.Inputs.{takes, vacancy_of}
use bolt_load.Runner.Valid.{IsValid, IsStoppable, begin_stop-IsValid}
use bolt_load.Runner.Holding.{Succeeds}
use bolt_load.Runner.Steps.{
  IsLimited, IsEmitting, apply_limit-IsLimited, take_controls-IsLimited, limited-IsEmitting,
  emitting-IsStoppable, pushed-Succeeds,
}

-- A stop for an error.
pub stops :
    (most : Option ℕ) (l : RunnerLoop) (error : TaskRunError)
    → IsStoppable most l.runner
    → Succeeds most (some (begin_stop l (err error)))
stops most l error v = (_, refl, begin_stop-IsValid most l (err error) v (λ h. absurd (cc)))

-- What an emission leaves behind, once it was polled with the signals applied.
end_poll-Succeeds :
    (most : Option ℕ) (l : RunnerLoop) (r : TaskRunner) (s : StreamingState) (e : Emission)
    (next : Continuation) (held : Bytes) (last : EmitEnd)
    → takes (vacancy_of last) ≡ true
    → e.frame ≡ some held
    → IsEmitting most r s next held
    → Succeeds most (after_poll (with_emission l s next (end_poll r e last)))
unfolding handle_step
end_poll-Succeeds most l r s e next held cancel k has v =
    stops most (record { runner = r; phase = streaming (record s { staged = none }) }) cancelled
      (emitting-IsStoppable most r s next held v)
end_poll-Succeeds most l r s e next held (vacancy consumer_gone) k has v =
    stops most (record { runner = r; phase = streaming (record s { staged = none }) })
      (failed_with channel_closed) (emitting-IsStoppable most r s next held v)
end_poll-Succeeds most l r s e next held (vacancy (slot false)) k has v = absurd (cc)
end_poll-Succeeds most l r s e next held (vacancy (slot true)) k has v =
    subst (λ f. Succeeds most (after_poll (with_emission l s next (emitted (push r e f true)))))
      (sym has) (pushed-Succeeds most r s next held e.deferred v)
end_poll-Succeeds most l r s e next held wait k has v = (
  _,
  refl,
  record { counted = v.counted; running = (v.quiet, (v.cleared, (held, has, v.going, v.fits))) },
)

pub emission-Succeeds :
    (most : Option ℕ) (l : RunnerLoop) (r : TaskRunner) (s : StreamingState) (e : Emission)
    (next : Continuation) (held : Bytes) (controls : List Control) (last : EmitEnd)
    → takes (vacancy_of last) ≡ true
    → e.frame ≡ some held
    → IsEmitting most r s next held
    → Succeeds most (after_poll (with_emission l s next (poll_emission r e controls last)))
unfolding poll_emission handle_step
emission-Succeeds most l r s e next held controls last k has v = elim (Bool-cases r.data_open) [
  | inl open_data ↦
      let (limits, same) = take_controls-IsLimited most r e controls in
      subst (λ x. Succeeds most (after_poll (with_emission l s next x)))
        (sym (if_true r.data_open _ _ open_data))
        (end_poll-Succeeds most l _ s _ next held last k (same ∙ has)
          (limited-IsEmitting most r _ s next held limits v))
  | inr shut ↦
      subst (λ x. Succeeds most (after_poll (with_emission l s next x)))
        (sym (if_false r.data_open _ _ shut))
        (stops most (record { runner = r; phase = streaming (record s { staged = none }) })
          (failed_with channel_closed) (emitting-IsStoppable most r s next held v))
]

-- A control signal outside an emission, on a loop that stays valid under a lower limit.
on_signal-Succeeds :
    (most : Option ℕ) (l : RunnerLoop) (c : Control)
    → ((r : TaskRunner) → IsLimited most l.runner r → IsValid most (record l { runner = r }))
    → ((r : TaskRunner) → IsLimited most l.runner r → IsStoppable most r)
    → Succeeds most (some (on_signal l c))
on_signal-Succeeds most l (err error) valid stoppable =
    stops most l error (stoppable l.runner (refl, λ n fits. fits))
on_signal-Succeeds most l (ok event) valid stoppable =
    let r = (apply_limit l.runner event).0 in
    let limits = apply_limit-IsLimited most l.runner event in
    after (apply_limit l.runner event).1 (valid r limits) (stoppable r limits)
  where
    after :
        (error : Option TaskRunError)
        → IsValid most (record l { runner = (apply_limit l.runner event).0 })
        → IsStoppable most (apply_limit l.runner event).0
        → Succeeds most
            (some (stop_on (record l { runner = (apply_limit l.runner event).0 }) error))
    after none v v' = (_, refl, v)
    after (some error) v v' =
        stops most (record l { runner = (apply_limit l.runner event).0 }) error v'

-- A phase that reads: cancellation, a signal, or what else there is.
pub signalled-Succeeds :
    (most : Option ℕ) (l : RunnerLoop) (s : Sources) (other : Polled)
    → ((r : TaskRunner) → IsLimited most l.runner r → IsValid most (record l { runner = r }))
    → ((r : TaskRunner) → IsLimited most l.runner r → IsStoppable most r)
    → Succeeds most (after_poll other)
    → Succeeds most (after_poll (signalled l s other))
unfolding handle_step
signalled-Succeeds most l s other valid stoppable rest = elim (Bool-cases s.cancel) [
  | inl stop ↦
      subst (λ x. Succeeds most (after_poll x)) (sym (if_true s.cancel _ _ stop))
        (stops most l cancelled (stoppable l.runner (refl, λ n fits. fits)))
  | inr go ↦
      subst (λ x. Succeeds most (after_poll x)) (sym (if_false s.cancel _ _ go)) (signal s.signal)
]
  where
    signal :
        (x : Option Control)
        → Succeeds most
            (after_poll (elim x [ some event ↦ ready l (control event) | none ↦ other ]))
    signal none = rest
    signal (some c) = on_signal-Succeeds most l c valid stoppable
