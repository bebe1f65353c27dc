-- ===== src/Writer/Tests.antt =====
-- Runs of `PendingWriter` on small inputs, and its theorems at concrete writers.
use bolt_load.Prelude.{◌≡◌, refl, some, List, [], ◌∷◌, ok, err, arith, true}
use bolt_load.Planner.Chunk.{range}
use bolt_load.Writer.State.{
  PendingWrite, PendingWriter, Host, queued, new, write_range, dispatch_write, io, WriteCompletion,
}
use bolt_load.Writer.Valid.{IsValid, new-IsValid, write_range-IsValid}
use bolt_load.Writer.Trace.{Event, submit, tick, complete, Trace, begin, steps}
use bolt_load.Writer.Ledger.{IsBalanced, steps-begin}
use bolt_load.Writer.Count.{unreported}
use bolt_load.Writer.Flush.{Wake, flush, IsFlushed, flush_ends}

abbrev host : Host
host = record { submission = queued; spawned = true }

abbrev one : PendingWrite
one = record { range = range 0 3; bytes = 1 ∷ 2 ∷ 3 ∷ [] }

abbrev two : PendingWrite
two = record { range = range 3 4; bytes = 4 ∷ [] }

abbrev history : List Event
history = submit one host ∷ submit two host ∷ complete 0 (ok tt) ∷ tick host ∷ []

steps-begin_example :
    (t : Trace) × (steps (begin 1 true) history ≡ some t) × IsValid t.writer × IsBalanced t
steps-begin_example = steps-begin 1 true history

-- With one slot, the second write is buffered behind the first.
busy : PendingWriter
unfolding new write_range dispatch_write
busy = (write_range (write_range (new 1 true) one host).0 two host).0

busy_load : (busy.in_flight ≡ 1) × (busy.pending_write ≡ some two)
unfolding busy
busy_load = (refl, refl)

busy-IsValid : IsValid busy
unfolding busy
busy-IsValid = write_range-IsValid _ two host (write_range-IsValid _ one host (new-IsValid 1 true))

abbrev wakes : List Wake
wakes =
    record { index = 5; result = ok tt; host = host }
    ∷ record { index = 0; result = err (io 5); host = host }
    ∷ []

flush_ends_example :
    (w : PendingWriter) × (cs : List WriteCompletion) × (flush busy host wakes ≡ some (w, cs))
    × IsFlushed busy.saw_error (λ r. unreported r busy) w cs
unfolding busy
flush_ends_example = flush_ends busy host wakes busy-IsValid (omega arith)
