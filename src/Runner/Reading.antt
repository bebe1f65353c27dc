-- ===== src/Runner/Reading.antt =====
-- run_loop.rs: a round from the phases that start and that read.
use bolt_load.Prelude.{
  ℕ, ◌≡◌, refl, sym, ap, ◌∙◌, inl, inr, Option, none, some, [], ◌++◌, Result, ok, err, length,
  Bool-cases, if_true, if_false,
}
use mathlib.Core.Path.{subst}
use mathlib.Core.List.{append-nil}
use bolt_load.Adapter.Error.{AdapterError, timeout, stream_error}
use bolt_load.Manager.Types.{Bytes}
use bolt_load.Runner.State.{
  failed_with, TaskRunner, Continuation, validate, idle_timeout, broken, Emission, StreamingState,
  connected, connecting, connecting_phase, streaming, RunnerLoop,
}
use bolt_load.Runner.Handle.{skip, handle_step, on_item, resume_item}
use bolt_load.Runner.Poll.{
  Sources, signalled, connecting_step, reading_step, poll_connect, poll_read, after_poll,
  poll_streaming,
}
use bolt_load.Runner.Valid.{Fits, IsQuiet, IsStaged, IsValid, IsStoppable, same-Fits}
use bolt_load.Runner.Holding.{Succeeds, IsHolding, holding-IsStoppable, flush-Succeeds}
use bolt_load.Runner.Buffer.{buffer_item-Succeeds}
use bolt_load.Runner.Steps.{IsLimited}
use bolt_load.Runner.Inputs.{IsKept}
use bolt_load.Runner.Rounds.{stops, emission-Succeeds, signalled-Succeeds}

-- The loop before it streams.
pub starting-IsStoppable :
    (most : Option ℕ) (r r' : TaskRunner)
    → r.downloaded ≡ length r.delivered
    → (r.delivered ≡ []) × (r.received ≡ []) × (r.published ≡ []) × Fits most r 0
    → IsLimited most r r'
    → IsStoppable most r'
starting-IsStoppable most r r' counted (a, b, c, fits) (same, fit) = record {
  counted = rw same counted;
  quiet = inl (rw same c);
  begun = ([], rw (same, a, b) refl);
  fits = fit 0 fits;
}

pub connecting-Succeeds :
    (most : Option ℕ) (r : TaskRunner) (s : Sources)
    → IsValid most (record { runner = r; phase = connecting_phase })
    → r.input ≡ connecting
    → Succeeds most (
        after_poll (
          signalled
            (record { runner = r; phase = connecting_phase })
            s
            (connecting_step (record { runner = r; phase = connecting_phase }) s)))
unfolding handle_step
connecting-Succeeds most r s v from =
    signalled-Succeeds most l s (connecting_step l s)
      (λ r' limits. record {
        counted = rw limits.0 v.counted;
        running = (
          rw limits.0 v.running.0,
          rw limits.0 v.running.1,
          rw limits.0 v.running.2,
          limits.1 0 v.running.3,
        );
      })
      (λ r' limits. starting-IsStoppable most r r' v.counted v.running limits)
      (elim (Bool-cases s.timer) [
        | inl late ↦
            subst (λ x. Succeeds most (after_poll x)) (sym (if_true s.timer _ _ late))
              (stops most l (failed_with timeout) stop)
        | inr early ↦
            subst (λ x. Succeeds most (after_poll x)) (sym (if_false s.timer _ _ early))
              (subst (λ i. Succeeds most (after_poll (poll_connect l i s.connection))) (sym from)
                (answer s.connection))
      ])
  where
    l : RunnerLoop
    l = record { runner = r; phase = connecting_phase }

    stop : IsStoppable most r
    stop = starting-IsStoppable most r r v.counted v.running (refl, λ n fits. fits)

    answer :
        (x : Option (Result (Unit {0}) AdapterError))
        → Succeeds most (after_poll (poll_connect l connecting x))
    answer none = (_, refl, v)
    answer (some (ok stream)) = (
      _,
      refl,
      record {
        counted = v.counted;
        running =
            (v.running.0, v.running.1, v.running.2, same-Fits most r _ 0 refl refl v.running.3);
      },
    )
    answer (some (err source)) = stops most l (failed_with (stream_error source)) stop

-- The loop while it reads, with nothing staged.
reading-IsHolding :
    (most : Option ℕ) (r r' : TaskRunner) (s : StreamingState)
    → r.downloaded ≡ length r.delivered
    → IsQuiet r.published
    → IsStaged most r s none
    → IsLimited most r r'
    → IsHolding most r' s.buffer
reading-IsHolding most r r' s counted quiet (_, whole, _, fits) (same, fit) = record {
  counted = rw same counted;
  quiet = rw same quiet;
  begun = ([], rw same (append-nil (r.delivered ++ s.buffer) ∙ whole));
  fits = fit _ fits;
}

-- An item that the stream gave.
item-Succeeds :
    (most : Option ℕ) (r : TaskRunner) (s : StreamingState) (bytes : Bytes)
    → r.downloaded ≡ length r.delivered
    → IsQuiet r.published
    → IsStaged most r s none
    → s.staged ≡ none
    → Succeeds most (on_item (record { runner = r; phase = streaming s }) (streaming s) bytes)
unfolding skip
item-Succeeds most r s bytes counted quiet (_, whole, small, fits) unstaged =
    buffer_item-Succeeds most (record r { received = r.received ++ bytes })
      (record s { rest = some (record { bytes = bytes; offset = 0 }) })
      (record { bytes = bytes; offset = 0 }) refl
      (record {
        counted = counted;
        quiet = quiet;
        unstaged = unstaged;
        whole = ap (λ (x : Bytes). x ++ bytes) whole;
        small = small;
        fits = same-Fits most r _ _ refl refl fits;
      })

reading-Succeeds :
    (most : Option ℕ) (r : TaskRunner) (s : StreamingState) (t : Sources)
    → r.downloaded ≡ length r.delivered
    → IsQuiet r.published
    → IsStaged most r s none
    → s.staged ≡ none
    → r.input ≡ connected
    → Succeeds most (
        after_poll (
          signalled
            (record { runner = r; phase = streaming s })
            t
            (reading_step (record { runner = r; phase = streaming s }) t)))
unfolding handle_step
reading-Succeeds most r s t counted quiet v unstaged from =
    signalled-Succeeds most l t (reading_step l t)
      (λ r' limits. record {
        counted = rw limits.0 counted;
        running = (
          rw limits.0 quiet,
          subst (IsStaged most r' s) (sym unstaged) (v.0, rw limits.0 v.1, v.2, limits.1 _ v.3),
        );
      })
      (λ r' limits.
        holding-IsStoppable most r' s.buffer (reading-IsHolding most r r' s counted quiet v limits))
      (elim (Bool-cases t.timer) [
        | inl late ↦
            subst (λ x. Succeeds most (after_poll x)) (sym (if_true t.timer _ _ late))
              (flush-Succeeds most resume_item l s idle_timeout refl held)
        | inr early ↦
            subst (λ x. Succeeds most (after_poll x)) (sym (if_false t.timer _ _ early))
              (subst (λ i. Succeeds most (after_poll (poll_read l i t.stream))) (sym from)
                (answer t.stream))
      ])
  where
    l : RunnerLoop
    l = record { runner = r; phase = streaming s }

    held : IsHolding most r s.buffer
    held = reading-IsHolding most r r s counted quiet v (refl, λ n fits. fits)

    answer :
        (x : Option (Option (Result Bytes AdapterError)))
        → Succeeds most (after_poll (poll_read l connected x))
    answer none = (
      _,
      refl,
      record { counted = counted; running = (quiet, subst (IsStaged most r s) (sym unstaged) v) },
    )
    answer (some none) = flush-Succeeds most resume_item l s validate refl held
    answer (some (some (err source))) =
        flush-Succeeds most resume_item l s (broken source) refl held
    answer (some (some (ok bytes))) = item-Succeeds most r s bytes counted quiet v unstaged

pub streaming-Succeeds :
    (most : Option ℕ) (r : TaskRunner) (s : StreamingState) (t : Sources)
    → IsValid most (record { runner = r; phase = streaming s })
    → r.input ≡ connected
    → IsKept t
    → Succeeds most
        (after_poll (poll_streaming (record { runner = r; phase = streaming s }) s s.staged t))
streaming-Succeeds most r s t v from kept = by_staged s.staged refl v.running.1
  where
    l : RunnerLoop
    l = record { runner = r; phase = streaming s }

    by_staged :
        (x : Option (Emission × Continuation))
        → s.staged ≡ x
        → IsStaged most r s x
        → Succeeds most (after_poll (poll_streaming l s x t))
    by_staged none e h = reading-Succeeds most r s t v.counted v.running.0 h e from
    by_staged (some (emission, next)) e (cleared, (held, has, going, fits)) =
        emission-Succeeds most l r s emission next held t.signals t.emission kept.1 has (record {
          counted = v.counted;
          quiet = v.running.0;
          cleared = cleared;
          going = going;
          fits = fits;
        })
