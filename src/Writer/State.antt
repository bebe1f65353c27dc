-- ===== src/Writer/State.antt =====
-- pending_writer.rs and command.rs: `PendingWriter`, its operations, and what the runtime and the
-- backend do to it. The writer's own fields are followed by what it shares with them: `outstanding`,
-- the dispatched writes whose completion guard is still held by a task or a worker, and `channel`, the
-- completion channel, oldest first.
use bolt_load.Prelude.{
  ℕ, zero, suc, ◌+◌, ◌-◌, Bool, true, false, not, ◌||◌, Option, none, some, List, [], ◌∷◌, ◌++◌,
  Result, ok, err, leb, ◌==◌, if◌then◌else◌, length, any, max, is_some,
}
use bolt_load.Planner.Chunk.{Range}

pub record PendingWrite : Type 0 where
  pub range : Range
  pub bytes : List ℕ

-- Why a write failed: an error of the backend, by its code, a guard that was dropped before it
-- reported, or a closed command queue.
pub data WriteError : Type 0 where
  io : ℕ → WriteError
  dropped queue_closed : WriteError

pub record WriteCompletion : Type 0 where
  pub range : Range
  pub result : Result (Unit {0}) WriteError

pub data WriteStatus : Type 0 where
  dispatched buffered : WriteStatus

pub record PendingWriter : Type 0 where
  pub capacity : ℕ
  pub direct : Bool
  pub in_flight : ℕ
  pub pending_write : Option PendingWrite
  pub saw_error : Bool
  pub outstanding : List PendingWrite
  pub channel : List WriteCompletion

-- `new` and `new_direct`, for a capacity below `usize::MAX`.
unfoldable pub new : ℕ → Bool → PendingWriter
new capacity direct = record {
  capacity = max capacity 1;
  direct = direct;
  in_flight = 0;
  pending_write = none;
  saw_error = false;
  outstanding = [];
  channel = [];
}

abbrev pub is_full : PendingWriter → Bool
is_full w = leb w.capacity w.in_flight

abbrev pub has_pending_write : PendingWriter → Bool
has_pending_write w = is_some w.pending_write

abbrev pub can_write : PendingWriter → Bool
can_write w = not (is_full w) || not (has_pending_write w)

-- `publish`: the channel holds `capacity + 1` completions; one that does not fit is lost.
unfoldable pub publish : PendingWriter → WriteCompletion → PendingWriter
publish w c =
    if leb (w.capacity + 1) (length w.channel)
    then w
    else record w { channel = w.channel ++ c ∷ [] }

-- What the backend's queue says to a direct write: there is no queue, the write is queued, or the
-- queue is full or closed. `spawned` says whether the runtime takes a task.
pub data Submission : Type 0 where
  unsupported queued full closed : Submission

pub record Host : Type 0 where
  pub submission : Submission
  pub spawned : Bool

abbrev pub failed_write : PendingWrite → WriteError → WriteCompletion
failed_write c e = record { range = c.range; result = err e }

-- A task that the runtime rejects is dropped with its guard, which reports the write as failed.
abbrev pub spawn : PendingWriter → PendingWrite → Bool → PendingWriter
spawn w c true = record w { outstanding = w.outstanding ++ c ∷ [] }
spawn w c false = publish w (failed_write c dropped)

-- `dispatch_spawned`.
abbrev pub dispatch_spawned : PendingWriter → PendingWrite → Host → PendingWriter
dispatch_spawned w c h = spawn w c h.spawned

-- `dispatch_direct`: a full queue is waited for by a task, `spawn_submit`.
abbrev pub submit_to : PendingWriter → PendingWrite → Bool → Submission → PendingWriter
submit_to w c spawned unsupported = spawn w c spawned
submit_to w c spawned queued = record w { outstanding = w.outstanding ++ c ∷ [] }
submit_to w c spawned full = spawn w c spawned
submit_to w c spawned closed = publish w (failed_write c queue_closed)

abbrev pub dispatch_direct : PendingWriter → PendingWrite → Host → PendingWriter
dispatch_direct w c h = submit_to w c h.spawned h.submission

unfoldable pub dispatch_write : PendingWriter → PendingWrite → Host → PendingWriter
unfolding publish
dispatch_write w c h =
    let w' : PendingWriter = record w { in_flight = w.in_flight + 1 } in
    if w.direct then dispatch_direct w' c h else dispatch_spawned w' c h

-- `write_range`; the rejected write is handed back in the error.
unfoldable pub write_range :
    PendingWriter → PendingWrite → Host → PendingWriter × Result WriteStatus PendingWrite
write_range w c h =
    if not (is_full w)
    then (dispatch_write w c h, ok dispatched)
    else if not (has_pending_write w)
    then (record w { pending_write = some c }, ok buffered)
    else (w, err c)

abbrev pub is_failed : WriteCompletion → Bool
is_failed c = elim c.result [ ok _ ↦ false | err _ ↦ true ]

-- `ack_completions`; `none` is the panic of `expect`.
abbrev pub ack_completions : PendingWriter → ℕ → Option PendingWriter
ack_completions w count =
    if leb count w.in_flight then some (record w { in_flight = w.in_flight - count }) else none

abbrev pub flush_pending : PendingWriter → Option PendingWrite → Host → PendingWriter
flush_pending w none h = w
flush_pending w (some c) h = dispatch_write (record w { pending_write = none }) c h

unfoldable pub try_flush_pending : PendingWriter → Host → PendingWriter
try_flush_pending w h = if not (is_full w) then flush_pending w w.pending_write h else w

abbrev pub settle_acked : Option PendingWriter → Host → Bool → Option PendingWriter
settle_acked none h failed = none
settle_acked (some w) h failed =
    let w' : PendingWriter = record w { saw_error = w.saw_error || failed } in
    some (if not w'.saw_error then try_flush_pending w' h else w')

-- `settle`, for completions already taken from the channel.
unfoldable pub settle : PendingWriter → List WriteCompletion → Host → Option PendingWriter
unfolding try_flush_pending
settle w completions h =
    settle_acked (ack_completions w (length completions)) h (any is_failed completions)

-- `try_tick`: `drain_ready_into` takes all that the channel holds.
unfoldable pub try_tick : PendingWriter → Host → Option (PendingWriter × List WriteCompletion)
try_tick w h = elim (settle (record w { channel = [] }) w.channel h) [
  | none ↦ none
  | some w' ↦ some (w', w.channel)
]

-- `poll_completions`: `none` inside is `Poll::Pending`.
unfoldable pub poll_completions :
    PendingWriter → Host → Option (PendingWriter × Option (List WriteCompletion))
poll_completions w h = if w.in_flight == 0 then some (w, none) else (elim w.channel [
  | [] ↦ some (w, none)
  | _ ∷ _ ↦ elim (try_tick w h) [
    | none ↦ none
    | some (w', completions) ↦ some (w', some completions)
  ]
])

-- A task or a worker ends the `i`-th outstanding write: its guard reports the result, or is dropped,
-- which reports `dropped`.
abbrev pub take_at : ℕ → List PendingWrite → Option (PendingWrite × List PendingWrite)
take_at i [] = none
take_at zero (c ∷ cs) = some (c, cs)
take_at (suc i) (c ∷ cs) = elim (take_at i cs) [ none ↦ none | some (d, rest) ↦ some (d, c ∷ rest) ]

unfoldable pub complete_at : PendingWriter → ℕ → Result (Unit {0}) WriteError → PendingWriter
unfolding publish
complete_at w i result = elim (take_at i w.outstanding) [
  | none ↦ w
  | some (c, rest) ↦
      publish (record w { outstanding = rest }) (record { range = c.range; result = result })
]
