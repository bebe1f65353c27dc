-- ===== src/Runner/Inputs.antt =====
-- run_loop.rs: what the runner reads from in each phase, and what the ring buffers promise their producer.
use bolt_load.Prelude.{
  ℕ, zero, suc, ◌-◌, ◌+◌, ◌≡◌, ◌∙◌, Bool, true, false, Option, none, some, ok, err, leb, ◌==◌,
  if◌then◌else◌, length, min, is_empty,
}
use bolt_load.Runner.State.{
  RunResult, connected, connecting, TaskRunner, Continuation, resume_rest, validate, idle_timeout,
  broken, ItemCursor, StreamingState, Phase, connecting_phase, publishing_started, stopped_phase,
  streaming, draining, publishing_stopped, RunnerLoop, buffer_size, allowance, begin_stop,
  publish_stopped, abandon, should_wait_data_drain,
}
use bolt_load.Runner.Emit.{EmitResult, EmitEnd, Vacancy, consumer_gone, slot, cancel, vacancy, wait}
use bolt_load.Runner.Handle.{
  resume_after_emit, flush, at_phase, buffer_item, buffer_cursor, buffer_rest, buffer_streaming,
}
use bolt_load.Runner.Poll.{Sources, Polled, after_poll}

-- A slot that was reported as vacant takes the item: the runner is the only producer of the buffer.
abbrev pub takes : Option Vacancy → Bool
takes none = true
takes (some consumer_gone) = true
takes (some (slot took)) = took

abbrev pub vacancy_of : EmitEnd → Option Vacancy
vacancy_of cancel = none
vacancy_of (vacancy v) = some v
vacancy_of wait = none

-- What the ring buffers promise in a poll.
abbrev pub IsKept : Sources → Type 0
IsKept s = (takes s.room ≡ true) × (takes (vacancy_of s.emission) ≡ true)

-- The runner holds the connection or the stream that its phase polls.
abbrev pub HasInput : TaskRunner → Phase → Type 0
HasInput r connecting_phase = r.input ≡ connecting
HasInput r publishing_started = r.input ≡ connected
HasInput r (streaming s) = r.input ≡ connected
HasInput r (draining result) = Unit
HasInput r (publishing_stopped event) = Unit
HasInput r stopped_phase = Unit

abbrev pub Keeps : Option RunnerLoop → Type 0
Keeps none = Unit
Keeps (some l) = HasInput l.runner l.phase

pub HasInput-same :
    (r r' : TaskRunner) (phase : Phase) → r'.input ≡ r.input → HasInput r phase → HasInput r' phase
HasInput-same r r' connecting_phase e h = e ∙ h
HasInput-same r r' publishing_started e h = e ∙ h
HasInput-same r r' (streaming s) e h = e ∙ h
HasInput-same r r' (draining result) e h = tt
HasInput-same r r' (publishing_stopped event) e h = tt
HasInput-same r r' stopped_phase e h = tt

either-Keeps : (b : Bool) (x y : Option RunnerLoop) → Keeps x → Keeps y → Keeps (if b then x else y)
either-Keeps true x y h k = h
either-Keeps false x y h k = k

pub polled-Keeps :
    (b : Bool) (x y : Polled)
    → Keeps (after_poll x)
    → Keeps (after_poll y)
    → Keeps (after_poll (if b then x else y))
polled-Keeps true x y h k = h
polled-Keeps false x y h k = k

pub begin_stop-Keeps : (l : RunnerLoop) (result : RunResult) → Keeps (some (begin_stop l result))
unfolding begin_stop
begin_stop-Keeps l result = go (abandon l) (should_wait_data_drain result)
  where
    go :
        (l' : RunnerLoop) (waits : Bool)
        → Keeps (
            some
              (if waits then record l' { phase = draining result } else publish_stopped l' result))
    go l' true = tt
    go l' false = tt

-- What goes on with an item keeps the stream.
abbrev Resumes : (RunnerLoop → Option RunnerLoop) → Type 0
Resumes resume = (l : RunnerLoop) → l.runner.input ≡ connected → Keeps (resume l)

pub resume_after_emit-Keeps :
    (resume : RunnerLoop → Option RunnerLoop) (l : RunnerLoop) (next : Continuation)
    (result : EmitResult)
    → Resumes resume
    → l.runner.input ≡ connected
    → Keeps (resume_after_emit resume l next result)
resume_after_emit-Keeps resume l next (err error) k h = begin_stop-Keeps l _
resume_after_emit-Keeps resume l (broken source) (ok deferred) k h = begin_stop-Keeps l _
resume_after_emit-Keeps resume l resume_rest (ok (some error)) k h = begin_stop-Keeps l _
resume_after_emit-Keeps resume l validate (ok (some error)) k h = begin_stop-Keeps l _
resume_after_emit-Keeps resume l idle_timeout (ok (some error)) k h = begin_stop-Keeps l _
resume_after_emit-Keeps resume l resume_rest (ok none) k h = k l h
resume_after_emit-Keeps resume l validate (ok none) k h = begin_stop-Keeps l _
resume_after_emit-Keeps resume l idle_timeout (ok none) k h = begin_stop-Keeps l _

pub flush-Keeps :
    (resume : RunnerLoop → Option RunnerLoop) (l : RunnerLoop) (s : StreamingState)
    (next : Continuation)
    → Resumes resume
    → l.runner.input ≡ connected
    → Keeps (flush resume l s next)
flush-Keeps resume l s next k h =
    either-Keeps (is_empty s.buffer) _ _
      (resume_after_emit-Keeps resume (at_phase l (streaming s)) next (ok none) k h) h

buffer_cursor-Keeps :
    (resume : RunnerLoop → Option RunnerLoop) (l : RunnerLoop) (s : StreamingState)
    (item : ItemCursor) (allowed : ℕ)
    → Resumes resume
    → l.runner.input ≡ connected
    → Keeps (buffer_cursor resume l s item allowed)
buffer_cursor-Keeps resume l s item allowed k h =
    either-Keeps (item.offset == length item.bytes) _ _ h (
      either-Keeps (leb (length s.buffer + writable) buffer_size) _ _
        (either-Keeps (writable == allowed) _ _ (flush-Keeps resume l _ validate k h) h)
        (flush-Keeps resume l _ resume_rest k h))
  where
    writable : ℕ
    writable = min (length item.bytes - item.offset) allowed

buffer_rest-Keeps :
    (resume : RunnerLoop → Option RunnerLoop) (l : RunnerLoop) (s : StreamingState) (allowed : ℕ)
    (rest : Option ItemCursor)
    → Resumes resume
    → l.runner.input ≡ connected
    → Keeps (buffer_rest resume l s allowed rest)
buffer_rest-Keeps resume l s allowed none k h = tt
buffer_rest-Keeps resume l s allowed (some item) k h =
    buffer_cursor-Keeps resume l s item allowed k h

buffer_streaming-Keeps :
    (resume : RunnerLoop → Option RunnerLoop) (l : RunnerLoop) (phase : Phase)
    → Resumes resume
    → l.runner.input ≡ connected
    → Keeps (buffer_streaming resume l phase)
buffer_streaming-Keeps resume l connecting_phase k h = tt
buffer_streaming-Keeps resume l publishing_started k h = tt
buffer_streaming-Keeps resume l (streaming s) k h =
    either-Keeps (allowance l.runner s.buffer == 0) _ _ (flush-Keeps resume l s validate k h)
      (buffer_rest-Keeps resume l s _ s.rest k h)
buffer_streaming-Keeps resume l (draining result) k h = tt
buffer_streaming-Keeps resume l (publishing_stopped event) k h = tt
buffer_streaming-Keeps resume l stopped_phase k h = tt

pub buffer_item-Keeps : (fuel : ℕ) → Resumes (buffer_item fuel)
unfolding buffer_item
buffer_item-Keeps zero l h = tt
buffer_item-Keeps (suc fuel) l h =
    buffer_streaming-Keeps (buffer_item fuel) l l.phase (buffer_item-Keeps fuel) h
