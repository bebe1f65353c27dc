-- ===== src/Runner/Cancel.antt =====
-- run_loop.rs: a runner whose token is cancelled.
use bolt_load.Prelude.{
  ℕ, ◌-◌, ◌≤◌, ◌≡◌, refl, sym, ap, ◌∙◌, inl, inr, true, false, Option, none, some, List, [], ◌∷◌,
  ◌++◌, arith, All, length, is_some, Bool-cases, if_true, if_false,
}
use mathlib.Core.Path.{subst}
use bolt_load.Manager.Lifecycle.{LifecycleEvent}
use bolt_load.Runner.State.{
  RunnerInput, TaskRunner, Continuation, Emission, StreamingState, Phase, connecting_phase,
  publishing_started, stopped_phase, streaming, draining, publishing_stopped, RunnerLoop, new_loop,
  begin_stop,
}
use bolt_load.Runner.Inputs.{HasInput, IsKept}
use bolt_load.Runner.Emit.{Vacancy, consumer_gone, slot, cancel, poll_emission}
use bolt_load.Runner.Handle.{handle_step}
use bolt_load.Runner.Poll.{
  Sources, round, rounds_from, poll_step, after_poll, with_emission, poll_started, poll_stopped,
  poll_streaming,
}
use bolt_load.Runner.Valid.{IsValid}
use bolt_load.Runner.Phases.{round-Succeeds}
use bolt_load.Runner.Runs.{rounds-Succeeds, new_loop-IsValid, new_loop-HasInput}

-- The token is cancelled, and the lifecycle channel has room or no consumer.
abbrev pub IsCancelled : Sources → Type 0
IsCancelled s = (s.cancel ≡ true) × (s.emission ≡ cancel) × (is_some s.room ≡ true)

-- How many rounds are left at most.
abbrev rank : Phase → ℕ
rank stopped_phase = 0
rank (publishing_stopped event) = 1
rank connecting_phase = 2
rank (streaming s) = 2
rank (draining result) = 2
rank publishing_started = 3

abbrev Falls : ℕ → Option RunnerLoop → Type 0
Falls n none = Unit
Falls n (some l) = rank l.phase ≤ n - 1

emission-Falls :
    (l : RunnerLoop) (r : TaskRunner) (s : StreamingState) (e : Emission) (next : Continuation)
    (t : Sources)
    → t.emission ≡ cancel
    → Falls 2 (after_poll (with_emission l s next (poll_emission r e t.signals t.emission)))
unfolding poll_emission handle_step begin_stop
emission-Falls l r s e next t h =
    subst (λ x. Falls 2 (after_poll (with_emission l s next (poll_emission r e t.signals x))))
      (sym h)
      (elim (Bool-cases r.data_open) [
        | inl open_data ↦
            subst (λ x. Falls 2 (after_poll (with_emission l s next x)))
              (sym (if_true r.data_open _ _ open_data)) (omega arith)
        | inr shut ↦
            subst (λ x. Falls 2 (after_poll (with_emission l s next x)))
              (sym (if_false r.data_open _ _ shut)) (omega arith)
      ])

phase-Falls :
    (r : TaskRunner) (phase : Phase) (s : Sources)
    → IsCancelled s
    → Falls (rank phase) (round (record { runner = r; phase = phase }) s)
unfolding round poll_step handle_step begin_stop
phase-Falls r connecting_phase s (stop, _, _) =
    subst (λ x. Falls 2 (after_poll x)) (sym (if_true s.cancel _ _ stop)) (omega arith)
phase-Falls r publishing_started s (_, _, room) = answer s.room room
  where
    answer :
        (x : Option Vacancy)
        → is_some x ≡ true
        → Falls 3 (after_poll (poll_started (record { runner = r; phase = publishing_started }) x))
    answer none h = absurd (ground (arith, h))
    answer (some consumer_gone) h = omega arith
    answer (some (slot false)) h = tt
    answer (some (slot true)) h = omega arith
phase-Falls r stopped_phase s h = omega arith
phase-Falls r (streaming state) s (stop, last, _) = by_staged state.staged
  where
    by_staged :
        (x : Option (Emission × Continuation))
        → Falls 2
            (after_poll (poll_streaming (record { runner = r; phase = streaming state }) state x s))
    by_staged none =
        subst (λ x. Falls 2 (after_poll x)) (sym (if_true s.cancel _ _ stop)) (omega arith)
    by_staged (some (e, next)) =
        emission-Falls (record { runner = r; phase = streaming state }) r state e next s last
phase-Falls r (draining result) s (stop, _, _) = elim (Bool-cases r.data_open) [
  | inl open_data ↦
      subst (λ x. Falls 2 (after_poll x)) (sym (if_true r.data_open _ _ open_data))
        (subst (λ x. Falls 2 (after_poll x)) (sym (if_true s.cancel _ _ stop)) (omega arith))
  | inr shut ↦
      subst (λ x. Falls 2 (after_poll x)) (sym (if_false r.data_open _ _ shut)) (omega arith)
]
phase-Falls r (publishing_stopped event) s (_, _, room) = answer event s.room room
  where
    answer :
        (x : Option LifecycleEvent) (y : Option Vacancy)
        → is_some y ≡ true
        → Falls 1 (
            after_poll (poll_stopped (record { runner = r; phase = publishing_stopped event }) x y))
    answer x none h = absurd (ground (arith, h))
    answer none (some y) h = tt
    answer (some e) (some consumer_gone) h = omega arith
    answer (some e) (some (slot false)) h = tt
    answer (some e) (some (slot true)) h = omega arith

stopped_rank : (phase : Phase) → rank phase ≤ 0 → phase ≡ stopped_phase
stopped_rank stopped_phase h = refl
stopped_rank connecting_phase h = absurd (omega arith)
stopped_rank publishing_started h = absurd (omega arith)
stopped_rank (streaming s) h = absurd (omega arith)
stopped_rank (draining result) h = absurd (omega arith)
stopped_rank (publishing_stopped event) h = absurd (omega arith)

-- A cancelled round of a valid loop.
round-falls :
    (most : Option ℕ) (l : RunnerLoop) (s : Sources)
    → IsValid most l
    → HasInput l.runner l.phase
    → IsKept s
    → IsCancelled s
    → (l' : RunnerLoop) × (round l s ≡ some l')
      × IsValid most l'
      × HasInput l'.runner l'.phase
      × (rank l'.phase ≤ rank l.phase - 1)
round-falls most l s v from kept c =
    let (l', e, v', from') = round-Succeeds most l s v from kept in
    (l', e, v', from', subst (Falls (rank l.phase)) e (phase-Falls l.runner l.phase s c))

rank_le : (phase : Phase) → rank phase ≤ 3
rank_le stopped_phase = omega arith
rank_le connecting_phase = omega arith
rank_le publishing_started = omega arith
rank_le (streaming s) = omega arith
rank_le (draining result) = omega arith
rank_le (publishing_stopped event) = omega arith

cancelled_rounds :
    (most : Option ℕ) (l : RunnerLoop) (readings : List Sources)
    → IsValid most l
    → HasInput l.runner l.phase
    → All IsKept readings
    → All IsCancelled readings
    → rank l.phase ≤ length readings
    → (l' : RunnerLoop) × (rounds_from (some l) readings ≡ some l') × (l'.phase ≡ stopped_phase)
cancelled_rounds most l [] v from kept c h = (l, refl, stopped_rank l.phase h)
cancelled_rounds most l (s ∷ rest) v from (kept, keeps) (first, others) h =
    let (l', e, v', from', falls) = round-falls most l s v from kept first in
    let (end, e', stops) =
      cancelled_rounds most l' rest v' from' keeps others (omega (arith, falls, h)) in
    (end, ap (λ x. rounds_from x rest) e ∙ e', stops)

rounds-append :
    (r : Option RunnerLoop) (xs ys : List Sources)
    → rounds_from r (xs ++ ys) ≡ rounds_from (rounds_from r xs) ys
rounds-append none xs ys = refl
rounds-append (some l) [] ys = refl
rounds-append (some l) (s ∷ xs) ys = rounds-append (round l s) xs ys

-- A runner whose token is cancelled stops, whatever it was doing and whatever it had been told before: three
-- rounds are enough once the token is cancelled, if the lifecycle channel has room or has lost its
-- consumer in each of them, and if, in all rounds, a slot that a ring buffer has reported as vacant takes the
-- item pushed next.
pub cancelled_stops :
    (input : RunnerInput) (total : Option ℕ) (readings last : List Sources)
    → All IsKept readings
    → All IsKept last
    → All IsCancelled last
    → 3 ≤ length last
    → (l : RunnerLoop) × (rounds_from (some (new_loop input total)) (readings ++ last) ≡ some l)
      × (l.phase ≡ stopped_phase)
cancelled_stops input total readings last kept kept' c h =
    let (l, e, v, from) =
      rounds-Succeeds total (new_loop input total) readings (new_loop-IsValid input total)
        (new_loop-HasInput input total) kept in
    let (l', e', stops) =
      cancelled_rounds total l last v from kept' c (omega (arith, rank_le l.phase, h)) in
    (
      l',
      rounds-append (some (new_loop input total)) readings last
          ∙ ap (λ x. rounds_from x last) e
          ∙ e',
      stops,
    )
