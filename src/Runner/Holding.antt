-- ===== src/Runner/Holding.antt =====
-- run_loop/stream.rs: what holds while bytes are held in the buffer or in a frame.
use bolt_load.Prelude.{
  ℕ, ◌+◌, ◌-◌, ◌≤◌, ◌≡◌, refl, sym, ◌∙◌, inl, inr, Bool, true, false, Option, none, some, ◌++◌, ok,
  arith, length, length-append, Bool-cases, min, is_empty,
}
use mathlib.Core.List.{append_assoc}
use bolt_load.Manager.Types.{Bytes}
use bolt_load.Manager.Data.{truncate}
use bolt_load.Manager.Poll.{length-truncate}
use bolt_load.Runner.State.{
  TaskRunError, TaskRunner, Continuation, resume_rest, validate, idle_timeout, broken, ItemCursor,
  StreamingState, streaming, RunnerLoop, allowance,
}
use bolt_load.Runner.Handle.{at_phase, flush, skip, extend, resume_after_emit}
use bolt_load.Runner.Slices.{length-skip, truncate-skip, skip-skip, IsPrefix}
use bolt_load.Runner.Valid.{
  Fits, IsQuiet, GoesOn, IsValid, IsStoppable, begin_stop-IsValid, validate_size-IsComplete,
}

-- A result that is there, and valid.
abbrev pub Succeeds : Option ℕ → Option RunnerLoop → Type 0
Succeeds most r = (l : RunnerLoop) × (r ≡ some l) × IsValid most l

-- A continuation that ends the reading.
abbrev pub ends : Continuation → Bool
ends resume_rest = false
ends _ = true

-- What holds while bytes are held in the buffer or in a frame.
pub record IsHolding (most : Option ℕ) (r : TaskRunner) (held : Bytes) : Type 0 where
  pub counted : r.downloaded ≡ length r.delivered
  pub quiet : IsQuiet r.published
  pub begun : IsPrefix (r.delivered ++ held) r.received
  pub fits : Fits most r (length held)

pub prefix_left : (xs ys zs : Bytes) → IsPrefix (xs ++ ys) zs → IsPrefix xs zs
prefix_left xs ys zs (rest, e) = (ys ++ rest, sym (append_assoc xs ys rest) ∙ e)

pub less-Fits : (most : Option ℕ) (r : TaskRunner) (n m : ℕ) → m ≤ n → Fits most r n → Fits most r m
less-Fits none r n m h fits = fits
less-Fits (some t) r n m h (limit, e, low, room) = (limit, e, low, omega arith)

pub holding-IsStoppable :
    (most : Option ℕ) (r : TaskRunner) (held : Bytes) → IsHolding most r held → IsStoppable most r
holding-IsStoppable most r held v = record {
  counted = v.counted;
  quiet = v.quiet;
  begun = prefix_left r.delivered held r.received v.begun;
  fits = less-Fits most r (length held) 0 (omega arith) v.fits;
}

-- What follows an emission, unless the item goes on.
pub resumed-Succeeds :
    (most : Option ℕ) (resume : RunnerLoop → Option RunnerLoop) (l : RunnerLoop)
    (next : Continuation)
    → ends next ≡ true
    → IsStoppable most l.runner
    → (deferred : Option TaskRunError)
    → Succeeds most (resume_after_emit resume l next (ok deferred))
resumed-Succeeds most resume l resume_rest e v deferred = absurd (cc)
resumed-Succeeds most resume l validate e v none =
    (_, refl, begin_stop-IsValid most l _ v (validate_size-IsComplete l.runner))
resumed-Succeeds most resume l validate e v (some error) =
    (_, refl, begin_stop-IsValid most l _ v (λ h. absurd (cc)))
resumed-Succeeds most resume l idle_timeout e v none =
    (_, refl, begin_stop-IsValid most l _ v (λ h. absurd (cc)))
resumed-Succeeds most resume l idle_timeout e v (some error) =
    (_, refl, begin_stop-IsValid most l _ v (λ h. absurd (cc)))
resumed-Succeeds most resume l (broken source) e v deferred =
    (_, refl, begin_stop-IsValid most l _ v (λ h. absurd (cc)))

-- A flush that ends the reading.
pub flush-Succeeds :
    (most : Option ℕ) (resume : RunnerLoop → Option RunnerLoop) (l : RunnerLoop)
    (s : StreamingState) (next : Continuation)
    → ends next ≡ true
    → IsHolding most l.runner s.buffer
    → Succeeds most (flush resume l s next)
flush-Succeeds most resume l s next e v = elim (Bool-cases (is_empty s.buffer)) [
  | inl nothing ↦ rw nothing (
      resumed-Succeeds most resume (at_phase l (streaming s)) next e
        (holding-IsStoppable most l.runner s.buffer v) none)
  | inr some_bytes ↦ rw some_bytes (
    _,
    refl,
    record {
      counted = v.counted;
      running = (v.quiet, (refl, (s.buffer, refl, going next e, v.fits)));
    },
  )
]
  where
    going : (n : Continuation) → ends n ≡ true → GoesOn l.runner s.rest s.buffer n
    going resume_rest h = absurd (cc)
    going validate h = v.begun
    going idle_timeout h = v.begun
    going (broken source) h = v.begun

-- The buffer grows by what the limit allows.
pub grown-Fits :
    (most : Option ℕ) (r : TaskRunner) (buffer : Bytes) (n : ℕ)
    → Fits most r (length buffer)
    → n ≤ allowance r buffer
    → Fits most r (length buffer + n)
grown-Fits none r buffer n fits h = fits
grown-Fits (some t) r buffer n (limit, e, low, room) h = (limit, e, low, ground (arith, h, e))

pub length-extend :
    (buffer : Bytes) (item : ItemCursor) (n : ℕ)
    → length (extend buffer item n) ≡ length buffer + min n (length item.bytes - item.offset)
length-extend buffer item n = omega (
  arith,
  length-append buffer (truncate n (skip item.offset item.bytes)),
  length-truncate n (skip item.offset item.bytes),
  length-skip item.offset item.bytes,
)

pub extend-whole :
    (delivered buffer received : Bytes) (item : ItemCursor) (n : ℕ)
    → (delivered ++ buffer) ++ skip item.offset item.bytes ≡ received
    → (delivered ++ extend buffer item n) ++ skip (item.offset + n) item.bytes ≡ received
extend-whole delivered buffer received item n e =
    let rest = skip item.offset item.bytes in
    rw
      (
        ← skip-skip item.offset n item.bytes,
        ← append_assoc delivered buffer (truncate n rest),
        append_assoc (delivered ++ buffer) (truncate n rest) (skip n rest),
        truncate-skip n rest,
      )
      e
