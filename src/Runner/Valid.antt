-- ===== src/Runner/Valid.antt =====
-- run_loop.rs: what holds of a runner's loop between two rounds, by its phase.
use bolt_load.Prelude.{
  ℕ, ◌+◌, ◌≤◌, ◌<◌, ◌≡◌, refl, ◌∙◌, ◌⊎◌, inl, inr, Option, none, some, List, [], ◌∷◌, ◌++◌, ok, err,
  arith, length, Bool-cases, if◌then◌else◌,
}
use bolt_load.Manager.Types.{Bytes}
use bolt_load.Manager.Lifecycle.{LifecycleEvent, started, stopped, StoppedReason, finished, failed}
use bolt_load.Runner.State.{
  TaskRunError, failed_with, RunResult, abandoned, TaskRunner, Continuation, resume_rest, Emission,
  ItemCursor, StreamingState, Phase, connecting_phase, publishing_started, stopped_phase, streaming,
  draining, publishing_stopped, RunnerLoop, buffer_size, begin_stop, should_wait_data_drain,
  stop_event, validate_size, validate_total, is_connecting,
}
use bolt_load.Runner.Handle.{skip}
use bolt_load.Runner.Slices.{IsPrefix}

-- The runner's limit is no higher than at the start, and what it delivered with what it holds fits
-- the limit at the start.
abbrev pub Fits : Option ℕ → TaskRunner → ℕ → Type 0
Fits none r held = r.total ≡ none
Fits (some most) r held =
    (limit : ℕ) × (r.total ≡ some limit) × (limit ≤ most) × (r.downloaded + held ≤ most)

pub same-Fits :
    (most : Option ℕ) (r r' : TaskRunner) (n : ℕ)
    → r'.total ≡ r.total
    → r'.downloaded ≡ r.downloaded
    → Fits most r n
    → Fits most r' n
same-Fits none r r' n e f fits = e ∙ fits
same-Fits (some t) r r' n e f (limit, has, low, room) = (limit, e ∙ has, low, rw f room)

-- The runner has all that its limit asks for; without a limit, it has something.
abbrev pub IsComplete : TaskRunner → Type 0
IsComplete r = (r.total ≡ some r.downloaded) ⊎ ((r.total ≡ none) × (0 < r.downloaded))

-- At most `Started` was published.
abbrev pub IsQuiet : List LifecycleEvent → Type 0
IsQuiet events = (events ≡ []) ⊎ (events ≡ started ∷ [])

-- What is reported as finished is complete.
abbrev pub IsHonest : TaskRunner → LifecycleEvent → Type 0
IsHonest r event = event ≡ stopped finished → IsComplete r

-- What the stream still has to give of the current item comes next, if the item goes on.
abbrev pub GoesOn : TaskRunner → Option ItemCursor → Bytes → Continuation → Type 0
GoesOn r rest held resume_rest =
    (item : ItemCursor) × (rest ≡ some item)
    × ((r.delivered ++ held) ++ skip item.offset item.bytes ≡ r.received)
GoesOn r rest held _ = IsPrefix (r.delivered ++ held) r.received

-- An emission that has not been pushed.
abbrev pub IsStaged :
    Option ℕ → TaskRunner → StreamingState → Option (Emission × Continuation) → Type 0
IsStaged most r s none =
    (s.rest ≡ none)
    × (r.delivered ++ s.buffer ≡ r.received)
    × (length s.buffer ≤ buffer_size)
    × Fits most r (length s.buffer)
IsStaged most r s (some (e, next)) =
    (s.buffer ≡ [])
    × ((held : Bytes) × (e.frame ≡ some held)
        × GoesOn r s.rest held next
        × Fits most r (length held))

abbrev pub IsRunning : Option ℕ → TaskRunner → Phase → Type 0
IsRunning most r connecting_phase =
    (r.delivered ≡ []) × (r.received ≡ []) × (r.published ≡ []) × Fits most r 0
IsRunning most r publishing_started =
    (r.delivered ≡ []) × (r.received ≡ []) × (r.published ≡ []) × Fits most r 0
IsRunning most r (streaming s) = IsQuiet r.published × IsStaged most r s s.staged
IsRunning most r (draining result) =
    IsQuiet r.published
    × IsPrefix r.delivered r.received
    × Fits most r 0
    × (result ≡ ok tt → IsComplete r)
IsRunning most r (publishing_stopped none) = ⊥
IsRunning most r (publishing_stopped (some event)) =
    IsQuiet r.published
    × IsPrefix r.delivered r.received
    × Fits most r 0
    × ((reason : StoppedReason) × (event ≡ stopped reason))
    × IsHonest r event
IsRunning most r stopped_phase =
    IsPrefix r.delivered r.received
    × Fits most r 0
    × (IsQuiet r.published
        ⊎ ((before : List LifecycleEvent) × (reason : StoppedReason) × IsQuiet before
            × (r.published ≡ before ++ stopped reason ∷ [])
            × IsHonest r (stopped reason)))

-- The counter counts the delivered bytes, and the phase has its invariant.
pub record IsValid (most : Option ℕ) (l : RunnerLoop) : Type 0 where
  pub counted : l.runner.downloaded ≡ length l.runner.delivered
  pub running : IsRunning most l.runner l.phase

-- A runner that may stop.
pub record IsStoppable (most : Option ℕ) (r : TaskRunner) : Type 0 where
  pub counted : r.downloaded ≡ length r.delivered
  pub quiet : IsQuiet r.published
  pub begun : IsPrefix r.delivered r.received
  pub fits : Fits most r 0

-- The event that a result is published as.
stop_event-stopped :
    (result : RunResult) → (reason : StoppedReason) × (stop_event result ≡ stopped reason)
stop_event-stopped (ok done) = (finished, refl)
stop_event-stopped (err TaskRunError.cancelled) = (failed _, refl)
stop_event-stopped (err (failed_with error)) = (failed error, refl)

stop_event-finished : (result : RunResult) → stop_event result ≡ stopped finished → result ≡ ok tt
stop_event-finished (ok done) h = refl
stop_event-finished (err TaskRunError.cancelled) h = absurd (cc)
stop_event-finished (err (failed_with error)) h = absurd (cc)

pub publish_stopped-IsValid :
    (most : Option ℕ) (r : TaskRunner) (result : RunResult)
    → IsStoppable most r
    → (result ≡ ok tt → IsComplete r)
    → IsValid most (record { runner = r; phase = publishing_stopped (some (stop_event result)) })
publish_stopped-IsValid most r result v complete = record {
  counted = v.counted;
  running = (
    v.quiet,
    v.begun,
    v.fits,
    stop_event-stopped result,
    λ h. complete (stop_event-finished result h),
  );
}

-- The stop of a runner whose connection was given up, if there was one.
abandoned-IsValid :
    (most : Option ℕ) (l : RunnerLoop) (result : RunResult)
    → IsStoppable most l.runner
    → (result ≡ ok tt → IsComplete l.runner)
    → IsValid most (
        if should_wait_data_drain result
        then record l { phase = draining result }
        else record l { phase = publishing_stopped (some (stop_event result)) })
abandoned-IsValid most l result v complete = elim (Bool-cases (should_wait_data_drain result)) [
  | inl waits ↦
      rw waits (record { counted = v.counted; running = (v.quiet, v.begun, v.fits, complete) })
  | inr goes ↦ rw goes (publish_stopped-IsValid most l.runner result v complete)
]

pub begin_stop-IsValid :
    (most : Option ℕ) (l : RunnerLoop) (result : RunResult)
    → IsStoppable most l.runner
    → (result ≡ ok tt → IsComplete l.runner)
    → IsValid most (begin_stop l result)
unfolding begin_stop
begin_stop-IsValid most l result v complete = elim (Bool-cases (is_connecting l.phase)) [
  | inl connects ↦ rw connects (
      abandoned-IsValid most (record l { runner = record l.runner { input = abandoned } }) result
        (record {
          counted = v.counted;
          quiet = v.quiet;
          begun = v.begun;
          fits = same-Fits most l.runner _ 0 refl refl v.fits;
        })
        complete)
  | inr reads ↦ rw reads (abandoned-IsValid most l result v complete)
]

pub validate_size-IsComplete : (r : TaskRunner) → validate_size r ≡ ok tt → IsComplete r
validate_size-IsComplete r h = of r.total h
  where
    of :
        (total : Option ℕ)
        → validate_total total r.downloaded ≡ ok tt
        → (total ≡ some r.downloaded) ⊎ ((total ≡ none) × (0 < r.downloaded))
    of none e = inr (refl, ground arith)
    of (some t) e = inl (ground (arith, e))
