-- ===== src/Writer/Ledger.antt =====
-- The ledger of a `PendingWriter`: what became of each write that was accepted.
use bolt_load.Prelude.{
  ℕ, ◌+◌, ◌≡◌, refl, ◌⊎◌, inl, inr, Bool, Option, none, some, List, [], ◌∷◌, Result, ok, err, arith,
}
use bolt_load.Planner.Chunk.{Range}
use bolt_load.Writer.State.{
  PendingWrite, WriteStatus, PendingWriter, Host, new, write_range, poll_completions,
}
use bolt_load.Writer.Valid.{
  new-IsValid, IsValid, settled, try_tick_lem, write_range-IsValid, complete_at-IsValid,
}
use bolt_load.Writer.Trace.{Event, submit, tick, poll, complete, Trace, begin, accept, step, steps}
use bolt_load.Writer.Count.{
  count, count_reports, unreported, count_reports-append, write_range-unreported,
  settled-unreported, complete_at-unreported,
}

-- Every accepted write has been reported or is still due.
abbrev pub IsBalanced : Trace → Type 0
IsBalanced t = (r : Range) → count r t.accepted ≡ count_reports r t.reported + unreported r t.writer

abbrev Steps : Trace → Option Trace → Type 0
Steps t none = ⊥
Steps t (some u) = IsValid u.writer × IsBalanced u

accept-IsValid :
    (t : Trace) (c : PendingWrite) (x : PendingWriter × Result WriteStatus PendingWrite)
    → IsValid x.0
    → IsValid (accept t c x).writer
accept-IsValid t c (w, ok s) v = v
accept-IsValid t c (w, err s) v = v

accept-balance :
    (r : Range) (t : Trace) (c : PendingWrite) (x : PendingWriter × Result WriteStatus PendingWrite)
    → unreported r x.0
      ≡ unreported r t.writer
        + count r (accept (record { writer = t.writer; accepted = []; reported = [] }) c x).accepted
    → count r t.accepted ≡ count_reports r t.reported + unreported r t.writer
    → count r (accept t c x).accepted
      ≡ count_reports r (accept t c x).reported + unreported r (accept t c x).writer
accept-balance r t c (w, ok s) e b = omega arith
accept-balance r t c (w, err s) e b = omega arith

-- `poll_completions` does nothing, or reports what `try_tick` reports.
pub poll_completions_lem :
    (w : PendingWriter) (h : Host)
    → IsValid w
    → (poll_completions w h ≡ some (w, none))
      ⊎ (poll_completions w h ≡ some (settled w h, some w.channel))
unfolding poll_completions
poll_completions_lem w h v = ground (arith, (try_tick_lem w h v).0)

step-Steps : (t : Trace) (e : Event) → IsValid t.writer → IsBalanced t → Steps t (step t e)
unfolding step
step-Steps t (submit c h) v b =
    let result = write_range t.writer c h in
    (
      accept-IsValid t c result (write_range-IsValid t.writer c h v),
      λ r. accept-balance r t c result (write_range-unreported r t.writer c h v) (b r),
    )
step-Steps t (tick h) v b =
    let (e, v') = try_tick_lem t.writer h v in
    rw (e, step)
      (
        v',
        λ r. omega (
          arith,
          b r,
          settled-unreported r t.writer h,
          count_reports-append r t.reported t.writer.channel,
        ),
      )
step-Steps t (poll h) v b = elim (poll_completions_lem t.writer h v) [
  | inl e ↦ rw (e, step) (v, b)
  | inr e ↦
      rw (e, step)
        (
          (try_tick_lem t.writer h v).1,
          λ r. omega (
            arith,
            b r,
            settled-unreported r t.writer h,
            count_reports-append r t.reported t.writer.channel,
          ),
        )
]
step-Steps t (complete i result) v b = (
  complete_at-IsValid t.writer i result v,
  λ r. omega (arith, b r, complete_at-unreported r t.writer i result v),
)

steps-Steps :
    (t : Trace) (es : List Event)
    → IsValid t.writer
    → IsBalanced t
    → (u : Trace) × (steps t es ≡ some u) × IsValid u.writer × IsBalanced u
unfolding steps
steps-Steps t [] v b = (t, refl, v, b)
steps-Steps t (e ∷ es) v b = go (step t e) refl (step-Steps t e v b) (λ u. steps-Steps u es)
  where
    go :
        (o : Option Trace)
        → step t e ≡ o
        → Steps t o
        → ((u : Trace)
            → IsValid u.writer
            → IsBalanced u
            → (x : Trace) × (steps u es ≡ some x) × IsValid x.writer × IsBalanced x)
        → (u : Trace) × (steps t (e ∷ es) ≡ some u) × IsValid u.writer × IsBalanced u
    go none q s ih = absurd s
    go (some x) q s ih = let (u, f, v', b') = ih x s.0 s.1 in (u, rw (q, steps) f, v', b')

-- Every history of a new writer, spawned or direct, runs without a panic: calls of `write_range`,
-- `try_tick` and `poll_completions` with any answer of the runtime and the backend's queue, and
-- completions of outstanding writes in any order. At its end the writes in flight are exactly the
-- outstanding ones and those reported in the channel, they are at most as many as the capacity (at least
-- one), and a buffered write waits behind a full backlog unless an error was seen; and for every
-- range, the accepted writes of that range are as many as the completions returned for it, those in
-- the channel, the outstanding writes and the buffered write of that range together.
pub steps-begin :
    (capacity : ℕ) (direct : Bool) (es : List Event)
    → (t : Trace) × (steps (begin capacity direct) es ≡ some t) × IsValid t.writer × IsBalanced t
unfolding new
steps-begin capacity direct es =
    steps-Steps (begin capacity direct) es (new-IsValid capacity direct) (λ r. refl)
