-- ===== src/Runner/Steps.antt =====
-- run_loop.rs: a round keeps the invariant and does not panic.
use bolt_load.Prelude.{
  ℕ, ◌+◌, ◌≡◌, refl, sym, ap, ◌∙◌, inl, inr, Option, none, some, List, [], ◌∷◌, ◌++◌, Result, ok,
  err, arith, length, length-append, Bool-cases, if_true, if_false,
}
use mathlib.Core.Path.{subst}
use mathlib.Core.List.{append-nil}
use bolt_load.Adapter.Error.{TaskError}
use bolt_load.Manager.Types.{Bytes}
use bolt_load.Runner.State.{
  TaskRunError, ControlEvent, limit_total, Control, TaskRunner, Continuation, resume_rest, validate,
  idle_timeout, broken, Emission, ItemCursor, StreamingState, streaming, apply_limit, apply_control,
  limited,
}
use bolt_load.Runner.Emit.{take_controls, on_control}
use bolt_load.Runner.Handle.{resume_after_emit, resume_item}
use bolt_load.Runner.Slices.{IsPrefix}
use bolt_load.Runner.Valid.{Fits, IsQuiet, GoesOn, IsStoppable, begin_stop-IsValid}
use bolt_load.Runner.Holding.{Succeeds, holding-IsStoppable, resumed-Succeeds}
use bolt_load.Runner.Buffer.{buffer_item-Succeeds}

-- A control signal changes the limit only, and never raises it.
abbrev pub IsLimited : Option ℕ → TaskRunner → TaskRunner → Type 0
IsLimited most r r' =
    (r' ≡ record r { total = r'.total }) × ((n : ℕ) → Fits most r n → Fits most r' n)

lowered-Fits :
    (most total total' : Option ℕ) (event : ControlEvent) (r : TaskRunner) (n : ℕ)
    → apply_control total event ≡ ok total'
    → r.total ≡ total
    → Fits most r n
    → Fits most (record r { total = total' }) n
lowered-Fits none none total' (limit_total new_total) r n e same fits = ground (arith, e)
lowered-Fits none (some t) total' (limit_total new_total) r n e same fits =
    absurd (ground (arith, same, fits))
lowered-Fits (some most) none total' (limit_total new_total) r n e same (limit, has, _, _) =
    absurd (ground (arith, same, has))
lowered-Fits (some most) (some t) total' (limit_total new_total) r n e same
      (limit, has, low, room) =
    (new_total, ground (arith, e), ground (arith, e, has, same), room)

limited-IsLimited :
    (most : Option ℕ) (r : TaskRunner) (event : ControlEvent) (answer : Result (Option ℕ) TaskError)
    → apply_control r.total event ≡ answer
    → IsLimited most r (limited r answer).0
limited-IsLimited most r event (err error) e = (refl, λ n fits. fits)
limited-IsLimited most r event (ok total) e =
    (refl, λ n fits. lowered-Fits most r.total total event r n e refl fits)

pub apply_limit-IsLimited :
    (most : Option ℕ) (r : TaskRunner) (event : ControlEvent)
    → IsLimited most r (apply_limit r event).0
apply_limit-IsLimited most r event =
    limited-IsLimited most r event (apply_control r.total event) refl

IsLimited-trans :
    (most : Option ℕ) (r r' r'' : TaskRunner)
    → IsLimited most r r'
    → IsLimited most r' r''
    → IsLimited most r r''
IsLimited-trans most r r' r'' (e, f) (e', f') =
    (e' ∙ ap (λ (x : TaskRunner). record x { total = r''.total }) e, λ n fits. f' n (f n fits))

-- What a signal keeps: the runner but for its limit, and the frame.
abbrev pub Keeps : Option ℕ → TaskRunner → Emission → TaskRunner × Emission → Type 0
Keeps most r e (r', e') = IsLimited most r r' × (e'.frame ≡ e.frame)

on_control-IsLimited :
    (most : Option ℕ) (r : TaskRunner) (e : Emission) (c : Control)
    → Keeps most r e (on_control r e c)
on_control-IsLimited most r e (ok event) = (apply_limit-IsLimited most r event, refl)
on_control-IsLimited most r e (err error) = ((refl, λ n fits. fits), refl)

pub take_controls-IsLimited :
    (most : Option ℕ) (r : TaskRunner) (e : Emission) (controls : List Control)
    → Keeps most r e (take_controls r e controls)
unfolding take_controls
take_controls-IsLimited most r e [] = ((refl, λ n fits. fits), refl)
take_controls-IsLimited most r e (c ∷ cs) =
    let (r', e') = on_control r e c in
    let later = take_controls-IsLimited most r' e' cs in
    elim (Bool-cases e.control_open) [
      | inr shut ↦
          subst (Keeps most r e) (sym (if_false e.control_open _ _ shut))
            ((refl, λ n fits. fits), refl)
      | inl open_control ↦ subst (Keeps most r e) (sym (if_true e.control_open _ _ open_control)) (
        IsLimited-trans most r r' _ (on_control-IsLimited most r e c).0 later.0,
        later.1 ∙ (on_control-IsLimited most r e c).1,
      )
    ]

-- The loop while a frame waits to be pushed.
pub record IsEmitting (most : Option ℕ) (r : TaskRunner) (s : StreamingState) (next : Continuation)
    (held : Bytes) : Type 0 where
  pub counted : r.downloaded ≡ length r.delivered
  pub quiet : IsQuiet r.published
  pub cleared : s.buffer ≡ []
  pub going : GoesOn r s.rest held next
  pub fits : Fits most r (length held)

pub limited-IsEmitting :
    (most : Option ℕ) (r r' : TaskRunner) (s : StreamingState) (next : Continuation) (held : Bytes)
    → IsLimited most r r'
    → IsEmitting most r s next held
    → IsEmitting most r' s next held
limited-IsEmitting most r r' s next held (same, fit) v =
    subst (λ x. IsEmitting most x s next held) (sym same)
      (record {
        counted = v.counted;
        quiet = v.quiet;
        cleared = v.cleared;
        going = still next v.going;
        fits = subst (λ x. Fits most x (length held)) same (fit (length held) v.fits);
      })
  where
    still :
        (n : Continuation)
        → GoesOn r s.rest held n
        → GoesOn (record r { total = r'.total }) s.rest held n
    still resume_rest g = g
    still validate g = g
    still idle_timeout g = g
    still (broken source) g = g

pub GoesOn-IsPrefix :
    (r : TaskRunner) (rest : Option ItemCursor) (held : Bytes) (next : Continuation)
    → GoesOn r rest held next
    → IsPrefix (r.delivered ++ held) r.received
GoesOn-IsPrefix r rest held resume_rest (item, _, e) = (_, e)
GoesOn-IsPrefix r rest held validate g = g
GoesOn-IsPrefix r rest held idle_timeout g = g
GoesOn-IsPrefix r rest held (broken source) g = g

pub emitting-IsStoppable :
    (most : Option ℕ) (r : TaskRunner) (s : StreamingState) (next : Continuation) (held : Bytes)
    → IsEmitting most r s next held
    → IsStoppable most r
emitting-IsStoppable most r s next held v = holding-IsStoppable most r held (record {
  counted = v.counted;
  quiet = v.quiet;
  begun = GoesOn-IsPrefix r s.rest held next v.going;
  fits = v.fits;
})

-- A runner that has pushed what it held.
abbrev pub pushed : TaskRunner → Bytes → TaskRunner
pushed r held = record r {
  downloaded = r.downloaded + length held;
  delivered = r.delivered ++ held;
}

pushed-Fits :
    (most : Option ℕ) (r : TaskRunner) (held : Bytes)
    → Fits most r (length held)
    → Fits most (pushed r held) 0
pushed-Fits none r held fits = fits
pushed-Fits (some t) r held (limit, e, low, room) = (limit, e, low, omega arith)

pushed-IsStoppable :
    (most : Option ℕ) (r : TaskRunner) (s : StreamingState) (next : Continuation) (held : Bytes)
    → IsEmitting most r s next held
    → IsStoppable most (pushed r held)
pushed-IsStoppable most r s next held v = record {
  counted = omega (arith, v.counted, length-append r.delivered held);
  quiet = v.quiet;
  begun = GoesOn-IsPrefix r s.rest held next v.going;
  fits = pushed-Fits most r held v.fits;
}

-- After the push.
pub pushed-Succeeds :
    (most : Option ℕ) (r : TaskRunner) (s : StreamingState) (next : Continuation) (held : Bytes)
    (deferred : Option TaskRunError)
    → IsEmitting most r s next held
    → Succeeds most (
        resume_after_emit resume_item
          (record { runner = pushed r held; phase = streaming (record s { staged = none }) })
          next
          (ok deferred))
pushed-Succeeds most r s validate held deferred v =
    resumed-Succeeds most resume_item _ validate refl (pushed-IsStoppable most r s validate held v)
      deferred
pushed-Succeeds most r s idle_timeout held deferred v =
    resumed-Succeeds most resume_item _ idle_timeout refl
      (pushed-IsStoppable most r s idle_timeout held v) deferred
pushed-Succeeds most r s (broken source) held deferred v =
    resumed-Succeeds most resume_item _ (broken source) refl
      (pushed-IsStoppable most r s (broken source) held v) deferred
pushed-Succeeds most r s resume_rest held (some error) v = (
  _,
  refl,
  begin_stop-IsValid most _ _ (pushed-IsStoppable most r s resume_rest held v) (λ h. absurd (cc)),
)
pushed-Succeeds most r s resume_rest held none v =
    let (item, rest, whole) = v.going in
    let stop = pushed-IsStoppable most r s resume_rest held v in
    buffer_item-Succeeds most (pushed r held) (record s { staged = none }) item rest
      (record {
        counted = stop.counted;
        quiet = v.quiet;
        unstaged = refl;
        whole = rw (v.cleared, append-nil (r.delivered ++ held)) whole;
        small = rw v.cleared (omega arith);
        fits = rw v.cleared (pushed-Fits most r held v.fits);
      })
