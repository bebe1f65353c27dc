-- ===== src/Writer/Flush.antt =====
-- `PendingWriter::flush`: its loop over the completions that come while it waits.
use bolt_load.Prelude.{
  ℕ, zero, suc, ◌+◌, ◌%◌, ◌≤◌, ◌<◌, ◌≡◌, refl, sym, ap, ◌∙◌, inl, inr, Bool, true, false, not, ◌||◌,
  any, leb, ◌&&◌, Option, none, some, List, [], ◌∷◌, ◌++◌, Result, arith, ◌==◌, if◌then◌else◌,
  Bool-cases, length, length-append,
}
use bolt_load.Planner.Chunk.{Range}
use bolt_load.Writer.State.{
  PendingWrite, WriteCompletion, WriteError, PendingWriter, Host, try_tick, poll_completions,
  is_failed, publish, complete_at, take_at, try_flush_pending, has_pending_write, flush_pending,
  is_full,
}
use bolt_load.Writer.Valid.{
  IsValid, settled, acked, try_tick_lem, complete_at-IsValid, complete_at_lem,
  dispatch_write-Dispatches,
}
use bolt_load.Writer.Count.{
  count_reports, count_writes, count_pending, unreported, count_reports-append, settled-unreported,
  complete_at-unreported,
}
use bolt_load.Writer.Failed.{has_failed, has_failed-append, settled_error, any-count_failed}

-- What happens while `flush` waits: some outstanding write, chosen by the index, ends with a result,
-- and what the runtime and the queue will say to the buffered write.
pub record Wake : Type 0 where
  pub index : ℕ
  pub result : Result (Unit {0}) WriteError
  pub host : Host

abbrev pub wake_up : PendingWriter → Wake → PendingWriter
wake_up w k = complete_at w (k.index % length w.outstanding) k.result

-- The loop of `flush`: each poll comes after one event. `none` is a panic, or a wait that the events
-- do not end.
unfoldable pub flush_loop :
    PendingWriter → List WriteCompletion → List Wake → Option (PendingWriter × List WriteCompletion)
flush_loop w done [] = if w.in_flight == 0 then some (w, done) else none
flush_loop w done (k ∷ ks) =
    let awake = wake_up w k in
    let rest : Option (PendingWriter × List WriteCompletion) =
      elim (poll_completions awake k.host) [
        | none ↦ none
        | some (w', none) ↦ flush_loop w' done ks
        | some (w', some batch) ↦ flush_loop w' (done ++ batch) ks
      ] in
    if w.in_flight == 0 then some (w, done) else rest

unfoldable pub flush :
    PendingWriter → Host → List Wake → Option (PendingWriter × List WriteCompletion)
unfolding flush_loop
flush w h ks = elim (try_tick w h) [ none ↦ none | some (w', done) ↦ flush_loop w' done ks ]

-- What is left to do: the writes in flight, and the buffered one.
abbrev pub load : PendingWriter → ℕ
load w = w.in_flight + (if has_pending_write w then 1 else 0)

-- A buffered write that is dispatched takes the slot.
try_flush_pending-load :
    (w : PendingWriter) (h : Host) → w.channel ≡ [] → load (try_flush_pending w h) ≤ load w
unfolding try_flush_pending
try_flush_pending-load w h e = go w.pending_write refl
  where
    go :
        (o : Option PendingWrite)
        → w.pending_write ≡ o
        → load (if not (is_full w) then flush_pending w o h else w) ≤ load w
    go none q = ground arith
    go (some c) q = elim (Bool-cases (is_full w)) [
      | inl f ↦ rw f (omega arith)
      | inr f ↦ rw f (
          ground (
            arith,
            dispatch_write-Dispatches (record w { pending_write = none }) c h (rw e (omega arith)),
          ))
    ]

-- Settling takes the reported writes off the load.
settled-load :
    (w : PendingWriter) (h : Host) → IsValid w → load (settled w h) + length w.channel ≤ load w
settled-load w h v = either (acked w).saw_error
  where
    either :
        (failed : Bool)
        → load (if not failed then try_flush_pending (acked w) h else acked w) + length w.channel
          ≤ load w
    either true = omega (arith, v.accounted)
    either false = omega (arith, v.accounted, try_flush_pending-load (acked w) h refl)

take_at_total :
    (i : ℕ) (cs : List PendingWrite)
    → i < length cs
    → (c : PendingWrite) × (rest : List PendingWrite) × (take_at i cs ≡ some (c, rest))
take_at_total i [] h = absurd (omega arith)
take_at_total zero (c ∷ cs) h = (c, cs, refl)
take_at_total (suc i) (d ∷ cs) h =
    let (c, rest, e) = take_at_total i cs (omega arith) in (c, d ∷ rest, rw e refl)

complete_at_none :
    (w : PendingWriter) (i : ℕ) (result : Result (Unit {0}) WriteError)
    → length w.outstanding ≡ 0
    → complete_at w i result ≡ w
unfolding complete_at
complete_at_none w i result e = go w.outstanding refl
  where
    go : (cs : List PendingWrite) → w.outstanding ≡ cs → complete_at w i result ≡ w
    go [] q = ground arith
    go (c ∷ cs) q = absurd (ground arith)

-- An event that comes while something is in flight leaves a report in the channel.
wake_up_lem :
    (w : PendingWriter) (k : Wake)
    → IsValid w
    → 0 < w.in_flight
    → (load (wake_up w k) ≡ load w)
      × ((wake_up w k).in_flight ≡ w.in_flight)
      × (0 < length (wake_up w k).channel)
wake_up_lem w k v b = elim (Bool-cases (length w.outstanding == 0)) [
  | inl e ↦
      rw (complete_at_none w (k.index % length w.outstanding) k.result (ground arith))
        (refl, refl, ground (arith, v.accounted))
  | inr e ↦
      let i = k.index % length w.outstanding in
      let (c, rest, t) = take_at_total i w.outstanding (ground arith) in
      rw (complete_at_lem w i k.result c rest v t) (
        refl,
        refl,
        omega (arith, length-append w.channel (record { range = c.range; result = k.result } ∷ [])),
      )
]

-- One round of the loop: the poll that follows the event returns a batch, and the load falls.
poll_after_wake :
    (w : PendingWriter) (k : Wake)
    → IsValid w
    → 0 < w.in_flight
    → poll_completions (wake_up w k) k.host
      ≡ some (settled (wake_up w k) k.host, some (wake_up w k).channel)
unfolding poll_completions
poll_after_wake w k v b = ground (
  arith,
  (try_tick_lem (wake_up w k) k.host (complete_at-IsValid w _ k.result v)).0,
  wake_up_lem w k v b,
)

wake_up_error : (w : PendingWriter) (k : Wake) → (wake_up w k).saw_error ≡ w.saw_error
unfolding complete_at publish
wake_up_error w k = go (take_at (k.index % length w.outstanding) w.outstanding)
  where
    full :
        (b : Bool) (q : PendingWriter)
        → q.saw_error ≡ w.saw_error
        → (if b then record w { outstanding = q.outstanding } else q).saw_error ≡ w.saw_error
    full true q e = refl
    full false q e = e

    go :
        (o : Option (PendingWrite × List PendingWrite))
        → (elim o as (λ x. PendingWriter) [
          | none ↦ w
          | some (c, rest) ↦
              publish
                (record w { outstanding = rest })
                (record { range = c.range; result = k.result })
        ]).saw_error
          ≡ w.saw_error
    go none = refl
    go (some (c, rest)) =
        full (leb (w.capacity + 1) (length w.channel))
          (record w {
            outstanding = rest;
            channel = w.channel ++ record { range = c.range; result = k.result } ∷ [];
          })
          refl

-- What `flush` ends with: nothing in flight, and every write that was unreported is in the returned
-- completions or is the buffered one, which stays only if an error was seen before or a returned
-- completion reports one.
abbrev pub IsFlushed : Bool → (Range → ℕ) → PendingWriter → List WriteCompletion → Type 0
IsFlushed seen due w cs =
    IsValid w
    × (w.in_flight ≡ 0)
    × (w.saw_error ≡ has_failed seen cs)
    × ((has_pending_write w && not (has_failed seen cs)) ≡ false)
    × ((r : Range) → count_reports r cs + count_pending r w.pending_write ≡ due r)

idle_unreported :
    (r : Range) (w : PendingWriter)
    → IsValid w
    → w.in_flight ≡ 0
    → unreported r w ≡ count_pending r w.pending_write
idle_unreported r w v e = go w.outstanding w.channel (omega (arith, v.accounted))
  where
    go :
        (cs : List PendingWrite) (ds : List WriteCompletion)
        → length cs + length ds ≡ 0
        → count_reports r ds + count_writes r cs + count_pending r w.pending_write
          ≡ count_pending r w.pending_write
    go [] [] q = omega arith
    go [] (d ∷ ds) q = absurd (omega arith)
    go (c ∷ cs) ds q = absurd (omega arith)

idle-IsFlushed :
    (seen : Bool) (w : PendingWriter) (cs : List WriteCompletion)
    → w.saw_error ≡ has_failed seen cs
    → IsValid w
    → w.in_flight ≡ 0
    → IsFlushed seen (λ r. count_reports r cs + unreported r w) w cs
idle-IsFlushed seen w cs s v e = (
  v,
  e,
  s,
  rw (← s) (ground (arith, v.room, v.waiting)),
  λ r. omega (arith, idle_unreported r w v e),
)

flush_loop_ends :
    (seen : Bool) (w : PendingWriter) (cs : List WriteCompletion) (ks : List Wake)
    → w.saw_error ≡ has_failed seen cs
    → IsValid w
    → load w ≤ length ks
    → (w' : PendingWriter) × (cs' : List WriteCompletion) × (flush_loop w cs ks ≡ some (w', cs'))
      × IsFlushed seen (λ r. count_reports r cs + unreported r w) w' cs'
unfolding flush_loop
flush_loop_ends seen w cs [] s v b =
    (w, cs, ground arith, idle-IsFlushed seen w cs s v (omega arith))
flush_loop_ends seen w cs (k ∷ ks) s v b = elim (Bool-cases (w.in_flight == 0)) [
  | inl e ↦ (w, cs, rw e refl, idle-IsFlushed seen w cs s v (ground arith))
  | inr e ↦
      let busy : 0 < w.in_flight = ground arith in
      let u = wake_up w k in
      let valid = complete_at-IsValid w _ k.result v in
      let q = settled u k.host in
      let (w', cs', f, flushed) =
        flush_loop_ends seen q (cs ++ u.channel) ks
          (settled_error u k.host
            ∙ ap (λ b. b || any is_failed u.channel) (wake_up_error w k ∙ s)
            ∙ sym (has_failed-append seen cs u.channel))
          (try_tick_lem u k.host valid).1
          (omega (arith, settled-load u k.host valid, wake_up_lem w k v busy)) in
      (
        w',
        cs',
        rw (e, poll_after_wake w k v busy) f,
        (
          flushed.0,
          flushed.1,
          flushed.2,
          flushed.3,
          λ r. omega (
            arith,
            flushed.4 r,
            count_reports-append r cs u.channel,
            settled-unreported r u k.host,
            complete_at-unreported r w (k.index % length w.outstanding) k.result v,
          ),
        ),
      )
]

-- On a valid writer `flush` ends without a panic if as many events come as there are writes in flight
-- and buffered, each ending any outstanding write with any result. Then nothing is in flight, a
-- write is still buffered only if an error was seen before or a completion that is returned reports a
-- failure, the flag for errors says the same, and for every range the completions returned
-- and the write still buffered are as many as the writes that were unreported before.
pub flush_ends :
    (w : PendingWriter) (h : Host) (ks : List Wake)
    → IsValid w
    → load w ≤ length ks
    → (w' : PendingWriter) × (cs : List WriteCompletion) × (flush w h ks ≡ some (w', cs))
      × IsFlushed w.saw_error (λ r. unreported r w) w' cs
unfolding flush
flush_ends w h ks v b =
    let (e, v') = try_tick_lem w h v in
    let (w', cs, f, flushed) =
      flush_loop_ends w.saw_error (settled w h) w.channel ks
        (settled_error w h ∙ ap (λ b. w.saw_error || b) (any-count_failed w.channel)) v'
        (omega (arith, settled-load w h v)) in
    (
      w',
      cs,
      rw (e, flush) f,
      (
        flushed.0,
        flushed.1,
        flushed.2,
        flushed.3,
        λ r. omega (arith, flushed.4 r, settled-unreported r w h),
      ),
    )
