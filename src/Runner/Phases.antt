-- ===== src/Runner/Phases.antt =====
-- run_loop.rs: a round from the phases that end a run, and from any phase.
use bolt_load.Prelude.{
  ◌≡◌, ℕ, refl, sym, ap, ◌∙◌, inl, inr, Bool, true, false, Option, none, some, [], ◌∷◌, ◌++◌, err,
  arith, Bool-cases, if◌then◌else◌, if_true, if_false,
}
use mathlib.Core.Path.{subst}
use bolt_load.Adapter.Error.{timeout, channel_closed}
use bolt_load.Manager.Lifecycle.{LifecycleEvent}
use bolt_load.Runner.State.{
  cancelled, failed_with, RunResult, TaskRunner, Phase, connecting_phase, publishing_started,
  stopped_phase, streaming, draining, publishing_stopped, RunnerLoop,
}
use bolt_load.Runner.Handle.{
  DrainOutcome, drained, drain_cancelled, timed_out, handle_step, finish_drain, drained_to,
}
use bolt_load.Runner.Poll.{
  Sources, poll_step, round, after_poll, poll_started, poll_stopped, poll_drain, ready,
}
use bolt_load.Runner.Valid.{IsValid, IsStoppable, same-Fits, publish_stopped-IsValid}
use bolt_load.Runner.Holding.{Succeeds, ends}
use bolt_load.Runner.Emit.{Vacancy, consumer_gone, slot}
use bolt_load.Runner.Inputs.{takes, IsKept, HasInput, Keeps}
use bolt_load.Runner.Kept.{round-Keeps}
use bolt_load.Runner.Rounds.{stops}
use bolt_load.Runner.Reading.{starting-IsStoppable, connecting-Succeeds, streaming-Succeeds}

draining-Succeeds :
    (most : Option ℕ) (r : TaskRunner) (result : RunResult) (s : Sources)
    → IsValid most (record { runner = r; phase = draining result })
    → Succeeds most (after_poll (poll_drain (record { runner = r; phase = draining result }) s))
unfolding handle_step
draining-Succeeds most r result s v = elim (Bool-cases r.data_open) [
  | inr shut ↦
      subst (λ x. Succeeds most (after_poll x)) (sym (if_false r.data_open _ _ shut))
        (ended drained)
  | inl open_data ↦
      subst (λ x. Succeeds most (after_poll x)) (sym (if_true r.data_open _ _ open_data))
        (elim (Bool-cases s.cancel) [
          | inl ends ↦
              subst (λ x. Succeeds most (after_poll x)) (sym (if_true s.cancel _ _ ends))
                (ended drain_cancelled)
          | inr go ↦
              subst (λ x. Succeeds most (after_poll x)) (sym (if_false s.cancel _ _ go))
                (waits s.is_drained s.timer)
        ])
]
  where
    l : RunnerLoop
    l = record { runner = r; phase = draining result }

    stop : IsStoppable most r
    stop = record {
      counted = v.counted;
      quiet = v.running.0;
      begun = v.running.1;
      fits = v.running.2;
    }

    ended : (outcome : DrainOutcome) → Succeeds most (finish_drain l (draining result) outcome)
    ended drained = (_, refl, publish_stopped-IsValid most r result stop v.running.3)
    ended drain_cancelled =
        (_, refl, publish_stopped-IsValid most r (err cancelled) stop (λ h. absurd (cc)))
    ended timed_out = (
      _,
      refl,
      publish_stopped-IsValid most r (err (failed_with timeout)) stop (λ h. absurd (cc)),
    )

    waits :
        (empty late : Bool)
        → Succeeds most (
            after_poll (
              if empty
              then ready l (drained_to drained)
              else if late
              then ready l (drained_to timed_out)
              else some (l, none)))
    waits true late = ended drained
    waits false true = ended timed_out
    waits false false = (_, refl, v)

publishing-Succeeds :
    (most : Option ℕ) (r : TaskRunner) (room : Option Vacancy)
    → takes room ≡ true
    → IsValid most (record { runner = r; phase = publishing_started })
    → Succeeds most
        (after_poll (poll_started (record { runner = r; phase = publishing_started }) room))
unfolding handle_step
publishing-Succeeds most r none k v = (_, refl, v)
publishing-Succeeds most r (some (slot false)) k v = absurd (cc)
publishing-Succeeds most r (some consumer_gone) k v =
    stops most (record { runner = r; phase = publishing_started }) (failed_with channel_closed)
      (starting-IsStoppable most r r v.counted v.running (refl, λ n fits. fits))
publishing-Succeeds most r (some (slot true)) k v =
    let (a, b, c, fits) = v.running in
    (
      _,
      refl,
      record {
        counted = v.counted;
        running = (
          inr (rw c refl),
          (refl, rw (a, b) refl, omega arith, same-Fits most r _ 0 refl refl fits),
        );
      },
    )

stopping-Succeeds :
    (most : Option ℕ) (r : TaskRunner) (event : Option LifecycleEvent) (room : Option Vacancy)
    → takes room ≡ true
    → IsValid most (record { runner = r; phase = publishing_stopped event })
    → Succeeds most (
        after_poll
          (poll_stopped (record { runner = r; phase = publishing_stopped event }) event room))
unfolding handle_step
stopping-Succeeds most r none room k v = absurd v.running
stopping-Succeeds most r (some event) none k v = (_, refl, v)
stopping-Succeeds most r (some event) (some (slot false)) k v = absurd (cc)
stopping-Succeeds most r (some event) (some consumer_gone) k v =
    let (quiet, begun, fits, _, _) = v.running in
    (
      _,
      refl,
      record {
        counted = v.counted;
        running = (begun, same-Fits most r _ 0 refl refl fits, inl quiet);
      },
    )
stopping-Succeeds most r (some event) (some (slot true)) k v =
    let (quiet, begun, fits, (reason, e), honest) = v.running in
    (
      _,
      refl,
      record {
        counted = v.counted;
        running = (
          begun,
          same-Fits most r _ 0 refl refl fits,
          inr (
            r.published,
            reason,
            quiet,
            ap (λ (x : LifecycleEvent). r.published ++ x ∷ []) e,
            λ h. honest (e ∙ h),
          ),
        );
      },
    )

phase-Succeeds :
    (most : Option ℕ) (r : TaskRunner) (phase : Phase) (s : Sources)
    → IsValid most (record { runner = r; phase = phase })
    → HasInput r phase
    → IsKept s
    → Succeeds most (round (record { runner = r; phase = phase }) s)
unfolding round poll_step
phase-Succeeds most r connecting_phase s v from kept = connecting-Succeeds most r s v from
phase-Succeeds most r publishing_started s v from kept = publishing-Succeeds most r s.room kept.0 v
phase-Succeeds most r stopped_phase s v from kept = (_, refl, v)
phase-Succeeds most r (streaming state) s v from kept =
    streaming-Succeeds most r state s v from kept
phase-Succeeds most r (draining result) s v from kept = draining-Succeeds most r result s v
phase-Succeeds most r (publishing_stopped event) s v from kept =
    stopping-Succeeds most r event s.room kept.0 v

-- A round of a valid loop that holds what its phase polls does not panic, and leaves it so.
pub round-Succeeds :
    (most : Option ℕ) (l : RunnerLoop) (s : Sources)
    → IsValid most l
    → HasInput l.runner l.phase
    → IsKept s
    → (l' : RunnerLoop) × (round l s ≡ some l') × IsValid most l' × HasInput l'.runner l'.phase
round-Succeeds most l s v from kept =
    let (l', e, v') = phase-Succeeds most l.runner l.phase s v from kept in
    (l', e, v', subst Keeps e (round-Keeps l s from))
