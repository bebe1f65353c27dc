-- ===== src/Writer/Trace.antt =====
-- Histories of a `PendingWriter`: calls of its operations, and completions by tasks and workers.
use bolt_load.Prelude.{ℕ, Bool, Option, none, some, List, [], ◌∷◌, ◌++◌, Result, ok, err}
use bolt_load.Planner.Chunk.{Range}
use bolt_load.Writer.State.{
  PendingWrite, WriteCompletion, WriteError, WriteStatus, PendingWriter, Host, new, write_range,
  try_tick, poll_completions, complete_at,
}

pub data Event : Type 0 where
  submit : PendingWrite → Host → Event
  tick poll : Host → Event
  complete : ℕ → Result (Unit {0}) WriteError → Event

-- The writer, the ranges of the writes it accepted, and the completions it returned.
pub record Trace : Type 0 where
  pub writer : PendingWriter
  pub accepted : List Range
  pub reported : List WriteCompletion

abbrev pub begin : ℕ → Bool → Trace
begin capacity direct = record { writer = new capacity direct; accepted = []; reported = [] }

abbrev pub accept : Trace → PendingWrite → PendingWriter × Result WriteStatus PendingWrite → Trace
accept t c (w, ok _) = record t { writer = w; accepted = c.range ∷ t.accepted }
accept t c (w, err _) = record t { writer = w }

-- `none` is a panic.
unfoldable pub step : Trace → Event → Option Trace
step t (submit c h) = some (accept t c (write_range t.writer c h))
step t (tick h) = elim (try_tick t.writer h) [
  | none ↦ none
  | some (w, cs) ↦ some (record t { writer = w; reported = t.reported ++ cs })
]
step t (poll h) = elim (poll_completions t.writer h) [
  | none ↦ none
  | some (w, none) ↦ some (record t { writer = w })
  | some (w, some cs) ↦ some (record t { writer = w; reported = t.reported ++ cs })
]
step t (complete i result) = some (record t { writer = complete_at t.writer i result })

unfoldable pub steps : Trace → List Event → Option Trace
steps t [] = some t
steps t (e ∷ es) = elim (step t e) [ none ↦ none | some u ↦ steps u es ]
