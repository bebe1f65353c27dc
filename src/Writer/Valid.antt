-- ===== src/Writer/Valid.antt =====
-- The accounting of `PendingWriter`: writes in flight are outstanding or reported in the channel, at
-- most `capacity` of them, and a buffered write waits behind a full backlog unless an error was seen.
use bolt_load.Prelude.{
  ℕ, zero, suc, ◌+◌, ◌-◌, ◌≤◌, ◌<◌, ◌≡◌, refl, ◌⊎◌, inl, inr, Bool-cases, Bool, true, false, not,
  ◌&&◌, ◌||◌, Option, none, some, List, [], ◌∷◌, ◌++◌, Result, arith, leb, length, length-append,
  if◌then◌else◌, any,
}
use bolt_load.Writer.State.{
  flush_pending, is_failed, PendingWrite, WriteCompletion, WriteError, PendingWriter, Host,
  Submission, unsupported, queued, full, closed, failed_write, dropped, queue_closed, spawn,
  submit_to, is_full, new, publish, dispatch_write, write_range, settle, try_flush_pending,
  try_tick, complete_at, take_at, has_pending_write,
}

pub record IsValid (w : PendingWriter) : Type 0 where
  pub room : 0 < w.capacity
  pub accounted : w.in_flight ≡ length w.outstanding + length w.channel
  pub bounded : w.in_flight ≤ w.capacity
  pub waiting : (has_pending_write w && not w.saw_error) ≡ true → w.in_flight ≡ w.capacity

pub new-IsValid : (capacity : ℕ) (direct : Bool) → IsValid (new capacity direct)
unfolding new
new-IsValid capacity direct = ground arith

-- What a dispatch does: the write becomes outstanding, or is reported as failed at once. The channel
-- has room for the report.
abbrev pub Dispatches : PendingWriter → PendingWrite → PendingWriter → Type 0
Dispatches w c q =
    (q ≡ record w { in_flight = w.in_flight + 1; outstanding = w.outstanding ++ c ∷ [] })
    ⊎ ((e : WriteError) × (q
          ≡ record w { in_flight = w.in_flight + 1; channel = w.channel ++ failed_write c e ∷ [] }))

publish_lem :
    (w : PendingWriter) (c : WriteCompletion)
    → length w.channel ≤ w.capacity
    → publish w c ≡ record w { channel = w.channel ++ c ∷ [] }
unfolding publish
publish_lem w c h = ground arith

spawn-Dispatches :
    (w : PendingWriter) (c : PendingWrite) (spawned : Bool)
    → length w.channel ≤ w.capacity
    → Dispatches w c (spawn (record w { in_flight = w.in_flight + 1 }) c spawned)
spawn-Dispatches w c true h = inl refl
spawn-Dispatches w c false h = inr (dropped, publish_lem _ (failed_write c dropped) h)

submit_to-Dispatches :
    (w : PendingWriter) (c : PendingWrite) (spawned : Bool) (s : Submission)
    → length w.channel ≤ w.capacity
    → Dispatches w c (submit_to (record w { in_flight = w.in_flight + 1 }) c spawned s)
submit_to-Dispatches w c spawned unsupported h = spawn-Dispatches w c spawned h
submit_to-Dispatches w c spawned queued h = inl refl
submit_to-Dispatches w c spawned full h = spawn-Dispatches w c spawned h
submit_to-Dispatches w c spawned closed h =
    inr (queue_closed, publish_lem _ (failed_write c queue_closed) h)

pub dispatch_write-Dispatches :
    (w : PendingWriter) (c : PendingWrite) (h : Host)
    → length w.channel ≤ w.capacity
    → Dispatches w c (dispatch_write w c h)
unfolding dispatch_write
dispatch_write-Dispatches w c h b =
    either w.direct (submit_to-Dispatches w c h.spawned h.submission b)
      (spawn-Dispatches w c h.spawned b)
  where
    either :
        {q r : PendingWriter} (direct : Bool)
        → Dispatches w c q
        → Dispatches w c r
        → Dispatches w c (if direct then q else r)
    either true x y = x
    either false x y = y

-- A free slot is filled.
dispatch_write-IsValid :
    (w : PendingWriter) (c : PendingWrite) (h : Host)
    → 0 < w.capacity
    → w.in_flight ≡ length w.outstanding + length w.channel
    → w.in_flight < w.capacity
    → (has_pending_write w && not w.saw_error) ≡ false
    → IsValid (dispatch_write w c h)
dispatch_write-IsValid w c h a b d e = elim (dispatch_write-Dispatches w c h (omega arith)) [
  | inl q ↦ rw q (ground (arith, length-append w.outstanding (c ∷ [])))
  | inr (x, q) ↦ rw q (ground (arith, length-append w.channel (failed_write c x ∷ [])))
]

pub write_range-IsValid :
    (w : PendingWriter) (c : PendingWrite) (h : Host) → IsValid w → IsValid (write_range w c h).0
unfolding write_range
write_range-IsValid w c h v = elim (Bool-cases (is_full w)) [
  | inr f ↦
      rw (write_range, f)
        (dispatch_write-IsValid w c h v.room v.accounted (ground arith) (ground (arith, v.waiting)))
  | inl f ↦
      rw (write_range, f)
        (elim (Bool-cases (has_pending_write w)) [ inl p ↦ rw p v | inr p ↦ rw p (ground arith) ])
]

-- The invariant without the part on a buffered write, which a settlement re-establishes.
pub record IsCounted (w : PendingWriter) : Type 0 where
  pub room : 0 < w.capacity
  pub accounted : w.in_flight ≡ length w.outstanding + length w.channel
  pub bounded : w.in_flight ≤ w.capacity

flush_pending-IsValid :
    (w : PendingWriter) (h : Host)
    → IsCounted w
    → w.saw_error ≡ false
    → IsValid (try_flush_pending w h)
unfolding try_flush_pending
flush_pending-IsValid w h v e = go w.pending_write refl
  where
    go :
        (o : Option PendingWrite)
        → w.pending_write ≡ o
        → IsValid (if not (is_full w) then flush_pending w o h else w)
    go none q = ground (arith, v.room, v.accounted, v.bounded)
    go (some c) q = elim (Bool-cases (is_full w)) [
      | inl f ↦ rw f (ground (arith, v.room, v.accounted, v.bounded))
      | inr f ↦ rw f (dispatch_write-IsValid _ c h v.room v.accounted (ground arith) refl)
    ]

-- The writer once the completions in the channel are taken and accounted for.
abbrev pub acked : PendingWriter → PendingWriter
acked w = record w {
  in_flight = w.in_flight - length w.channel;
  saw_error = w.saw_error || any is_failed w.channel;
  channel = [];
}

abbrev pub settled : PendingWriter → Host → PendingWriter
settled w h = if not (acked w).saw_error then try_flush_pending (acked w) h else acked w

-- Settling what the channel held does not panic.
pub settle_lem :
    (w : PendingWriter) (h : Host)
    → IsValid w
    → settle (record w { channel = [] }) w.channel h ≡ some (settled w h)
unfolding settle
settle_lem w h v =
    let count : leb (length w.channel) w.in_flight ≡ true = ground (arith, v.accounted) in
    rw count refl

settled-IsValid : (w : PendingWriter) (h : Host) → IsValid w → IsValid (settled w h)
settled-IsValid w h v = either (acked w) (acked w).saw_error counted refl
  where
    counted : IsCounted (acked w)
    counted = record {
      room = v.room;
      accounted = omega (arith, v.accounted);
      bounded = omega (arith, v.bounded);
    }

    either :
        (q : PendingWriter) (failed : Bool)
        → IsCounted q
        → q.saw_error ≡ failed
        → IsValid (if not failed then try_flush_pending q h else q)
    either q true d e = ground (arith, d.room, d.accounted, d.bounded)
    either q false d e = flush_pending-IsValid q h d e

-- `try_tick` does not panic, and reports all that the channel held.
pub try_tick_lem :
    (w : PendingWriter) (h : Host)
    → IsValid w
    → (try_tick w h ≡ some (settled w h, w.channel)) × IsValid (settled w h)
unfolding try_tick
try_tick_lem w h v = (rw (settle_lem w h v, try_tick) refl, settled-IsValid w h v)

take_at-length :
    (i : ℕ) (cs rest : List PendingWrite) (c : PendingWrite)
    → take_at i cs ≡ some (c, rest)
    → length cs ≡ length rest + 1
take_at-length i [] rest c e = cc
take_at-length zero (d ∷ cs) rest c e = ground arith
take_at-length (suc i) (d ∷ cs) rest c e = go (take_at i cs) refl (take_at-length i cs)
  where
    go :
        (o : Option (PendingWrite × List PendingWrite))
        → take_at i cs ≡ o
        → ((r : List PendingWrite) (x : PendingWrite)
            → take_at i cs ≡ some (x, r)
            → length cs ≡ length r + 1)
        → length (d ∷ cs) ≡ length rest + 1
    go none q ih = absurd (ground arith)
    go (some (x, r)) q ih = ground (arith, ih r x q)

-- What a completion does: the write leaves the outstanding ones, and its report fits into the channel.
pub complete_at_lem :
    (w : PendingWriter) (i : ℕ) (result : Result (Unit {0}) WriteError) (c : PendingWrite)
    (rest : List PendingWrite)
    → IsValid w
    → take_at i w.outstanding ≡ some (c, rest)
    → complete_at w i result ≡ record w {
      outstanding = rest;
      channel = w.channel ++ record { range = c.range; result = result } ∷ [];
    }
unfolding complete_at
complete_at_lem w i result c rest v e =
    rw (e, complete_at)
      (publish_lem _ _ (omega (arith, v.accounted, v.bounded, take_at-length i _ rest c e)))

pub complete_at-IsValid :
    (w : PendingWriter) (i : ℕ) (result : Result (Unit {0}) WriteError)
    → IsValid w
    → IsValid (complete_at w i result)
unfolding complete_at
complete_at-IsValid w i result v = go (take_at i w.outstanding) refl
  where
    go :
        (o : Option (PendingWrite × List PendingWrite))
        → take_at i w.outstanding ≡ o
        → IsValid (complete_at w i result)
    go none e = rw (e, complete_at) v
    go (some (c, rest)) e = rw (complete_at_lem w i result c rest v e) (
        ground (
          arith,
          v.room,
          v.accounted,
          v.bounded,
          v.waiting,
          length-append w.channel (record { range = c.range; result = result } ∷ []),
          take_at-length i w.outstanding rest c e,
        ))
