-- ===== src/Manager/Poll.antt =====
-- runner_manager/data.rs and `poll_tick`: a poll of a consistent manager.
use bolt_load.Prelude.{
  ℕ, zero, suc, ◌+◌, ◌-◌, ◌≤◌, ◌>>=◌, ◌≡◌, refl, Bool, true, false, Option, none, some, List, [],
  ◌∷◌, arith, leb, if◌then◌else◌, min, ap, length, is_empty, Bool-cases, inl, inr, sub64,
  sub64-eq_of_le,
}
use bolt_load.OrdMap.{get, remove, get-insert, get-remove}
use bolt_load.Planner.Chunk.{range, ChunkState, finished}
use bolt_load.Planner.State.{get_runner_state}
use bolt_load.Planner.Valid.Steps.{update_progress-IsValid}
use bolt_load.Planner.Runners.{update_progress_lem, find_runner}
use bolt_load.Adapter.Error.{Text}
use bolt_load.Manager.Types.{Bytes, DownloadedChunk, RunnerManager, RunnerTick, with_chunk}
use bolt_load.Manager.State.{is_connecting}
use bolt_load.Manager.Lifecycle.{
  Polled, item, closed, nothing, LifecycleEvent, started, stopped, polled_event, poll_aggregator,
  first_failure, poll_lifecycle,
}
use bolt_load.Manager.Data.{
  truncate, or_zero, handle_data_frame, polled_frame, poll_data, after_lifecycle, poll_tick,
}
use bolt_load.Manager.Consistent.{has, IsConsistent, chunk_of}
use bolt_load.Manager.Release.{IsLate}
use bolt_load.Manager.Dismissed.{Succeeds}
use bolt_load.Manager.Handled.{stopped_total, started_total, lost_total, spawn_failed_total}

pub length-truncate : (n : ℕ) (bs : Bytes) → length (truncate n bs) ≡ min n (length bs)
unfolding truncate
length-truncate zero bs = omega arith
length-truncate (suc n) [] = omega arith
length-truncate (suc n) (b ∷ bs) = omega (arith, length-truncate n bs)

-- On a consistent manager, a data frame of a runner whose chunk is `c` is handled without a panic. What
-- is passed on for writing starts at the end of what the runner had downloaded, its range stays
-- within the chunk, and it holds as many bytes as its range, the first of the frame, and no fewer
-- than the smaller of the frame and the missing part; the runner's downloaded end moves past them, the
-- meter counts the whole frame, and the manager stays consistent.
pub handle_data_frame_lem :
    (m : RunnerManager) (id : ℕ) (frame : Bytes) (c : ChunkState)
    → IsConsistent m
    → get_runner_state m.chunk_planner id ≡ some c
    → let moved = min (length frame) (c.allocated.end - c.downloaded.end) in
      let new_end = c.downloaded.end + moved in
      (m' : RunnerManager) × (chunk : DownloadedChunk) × (handle_data_frame m id frame
        ≡ some (m', chunk))
      × (chunk.range ≡ range c.downloaded.end new_end)
      × (new_end ≤ c.allocated.end)
      × (chunk.bytes ≡ truncate moved frame)
      × (length chunk.bytes ≡ moved)
      × (get_runner_state m'.chunk_planner id
          ≡ some (record c {
            downloaded = range c.downloaded.start new_end;
            status = if leb c.allocated.end new_end then finished else c.status;
          }))
      × (or_zero (get id m'.meters) ≡ or_zero (get id m.meters) + length frame)
      × IsConsistent m'
unfolding handle_data_frame
handle_data_frame_lem m id frame c v chunk =
    let l = update_progress_lem m.chunk_planner id (length frame) c v.planner chunk in
    let moved = min (length frame) (c.allocated.end - c.downloaded.end) in
    let (start, _, found) = find_runner m.chunk_planner id c v.planner chunk in
    let size : sub64 (c.downloaded.end + moved) c.downloaded.end ≡ moved = ground (
      arith,
      found.4,
      found.5,
      v.planner.fits,
      sub64-eq_of_le (c.downloaded.end + moved) c.downloaded.end,
    ) in
    rw (l.0, handle_data_frame)
      (
        _,
        _,
        refl,
        refl,
        omega (arith, found.4),
        ap (λ n. truncate n frame) size,
        rw size (omega (arith, length-truncate moved frame)),
        l.2,
        ground (arith, get-insert id id (or_zero (get id m.meters) + length frame) m.meters),
        record {
          ids = v.ids;
          planner = update_progress-IsValid m.chunk_planner id (length frame) v.planner;
          assigned = λ j. ground (arith, v.assigned j, l.2, l.3 j, chunk);
          limited = v.limited;
          listening = v.listening;
          receiving = v.receiving;
          connecting = λ j k k'. v.connecting j k (ground (arith, l.2, l.3 j, chunk, k'));
          rejected = v.rejected;
          distinct = v.distinct;
        },
      )

-- What a runner may send, by what the manager knows of it: events come from a runner that is listened
-- to, and it starts once.
abbrev pub IsExpected : RunnerManager → Polled LifecycleEvent → Type 0
IsExpected m (item id started) =
    (has id m.lifecycle_aggregator ≡ true) × (is_connecting m id ≡ true)
IsExpected m (item id (stopped reason)) = has id m.lifecycle_aggregator ≡ true
IsExpected m (closed id) = has id m.lifecycle_aggregator ≡ true
IsExpected m nothing = Unit

-- A frame comes from a runner whose data is received.
abbrev pub IsDelivered : RunnerManager → Polled Bytes → Type 0
IsDelivered m (item id frame) = has id m.data_aggregator ≡ true
IsDelivered m (closed id) = Unit
IsDelivered m nothing = Unit

-- A poll that does not panic, leaves the manager consistent, and changes it only with a tick.
abbrev pub Polls : RunnerManager → Option (RunnerManager × Option RunnerTick) → Type 0
Polls m r =
    (m' : RunnerManager) × (tick : Option RunnerTick) × (r ≡ some (m', tick))
    × IsConsistent m'
    × (tick ≡ none → m' ≡ m)

ticked :
    (m : RunnerManager) (r : Option (RunnerManager × RunnerTick))
    → Succeeds r
    → Polls m (r >>= λ s. some (s.0, some s.1))
ticked m r (m', tick, done, v) = rw done (m', some tick, refl, v, λ e. cc)

poll_event_total :
    (m : RunnerManager) (polled : Polled LifecycleEvent) (now : ℕ)
    → IsConsistent m
    → IsExpected m polled
    → IsLate m now
    → Polls m (poll_aggregator m polled now)
unfolding poll_aggregator
poll_event_total m polled now v e late = elim (Bool-cases (is_empty m.lifecycle_aggregator)) [
  | inl quiet ↦ rw (quiet, poll_aggregator) (m, none, refl, v, λ e. refl)
  | inr some_runner ↦ rw (some_runner, poll_aggregator) (handled polled e)
]
  where
    handled : (x : Polled LifecycleEvent) → IsExpected m x → Polls m (polled_event m x now)
    handled (item id started) (h, connects) = ticked m _ (started_total m id now v h connects)
    handled (item id (stopped reason)) h = ticked m _ (stopped_total m id reason now v h late)
    handled (closed id) h = ticked m _ (lost_total m id now v h late)
    handled nothing h = (m, none, refl, v, λ e. refl)

unregistered-IsConsistent :
    (m : RunnerManager) (id : ℕ)
    → IsConsistent m
    → IsConsistent (record m { data_aggregator = remove id m.data_aggregator })
unregistered-IsConsistent m id v = record {
  ids = v.ids;
  planner = v.planner;
  assigned = v.assigned;
  limited = v.limited;
  listening = v.listening;
  receiving = λ j h. v.receiving j (ground (arith, get-remove j id m.data_aggregator, h));
  connecting = v.connecting;
  rejected = v.rejected;
  distinct = v.distinct;
}

poll_frame_total :
    (m : RunnerManager) (polled : Polled Bytes)
    → IsConsistent m
    → IsDelivered m polled
    → Polls m (poll_data m polled)
unfolding poll_data
poll_frame_total m polled v e = elim (Bool-cases (is_empty m.data_aggregator)) [
  | inl quiet ↦ rw (quiet, poll_data) (m, none, refl, v, λ e. refl)
  | inr some_runner ↦ rw (some_runner, poll_data) (handled polled e)
]
  where
    handled : (x : Polled Bytes) → IsDelivered m x → Polls m (polled_frame m x)
    handled (item id frame) h =
        let (c, chunk) = chunk_of m id v (v.receiving id h) in
        let (m', d, done, _, _, _, _, _, _, v') = handle_data_frame_lem m id frame c v chunk in
        rw done (m', some (with_chunk d), refl, v', λ e. cc)
    handled (closed id) h = (_, _, refl, unregistered-IsConsistent m id v, λ e. cc)
    handled nothing h = (m, none, refl, v, λ e. refl)

poll_lifecycle_total :
    (m : RunnerManager) (polled : Polled LifecycleEvent) (now : ℕ)
    → IsConsistent m
    → IsExpected m polled
    → IsLate m now
    → Polls m (poll_lifecycle m polled now)
unfolding poll_lifecycle
poll_lifecycle_total m polled now v e late = go m.spawn_failures refl
  where
    go :
        (failures : List (ℕ × Text))
        → m.spawn_failures ≡ failures
        → Polls m (first_failure m failures polled now)
    go [] q = poll_event_total m polled now v e late
    go ((id, message) ∷ rest) q = ticked m _ (spawn_failed_total m id message rest now v q late)

-- A poll of a consistent manager does not panic, whether or not data is polled for, and leaves the
-- manager consistent, if the events are those that runners send: each comes from a runner whose
-- receiver is registered, and `Started` from one that still connects; and if the clock has run for at
-- least the sampler's window. A poll that is pending changes nothing.
pub poll_tick_total :
    (m : RunnerManager) (data_enabled : Bool) (lifecycle : Polled LifecycleEvent)
    (frames : Polled Bytes) (now : ℕ)
    → IsConsistent m
    → IsExpected m lifecycle
    → IsDelivered m frames
    → m.runner_outcome_sampler.time_window ≤ now
    → (m' : RunnerManager) × (tick : Option RunnerTick) × (poll_tick m data_enabled lifecycle frames
          now
        ≡ some (m', tick))
      × IsConsistent m'
      × (tick ≡ none → m' ≡ m)
unfolding poll_tick
poll_tick_total m data_enabled lifecycle frames now v e d late =
    let (m', tick, done, v', same) = poll_lifecycle_total m lifecycle now v e late in
    rw (done, poll_tick) (go m' tick v' same data_enabled)
  where
    go :
        (m' : RunnerManager) (tick : Option RunnerTick)
        → IsConsistent m'
        → (tick ≡ none → m' ≡ m)
        → (enabled : Bool) → Polls m (after_lifecycle m' tick enabled frames)
    go m' (some t) v' same enabled = (m', some t, refl, v', same)
    go m' none v' same false = (m', none, refl, v', same)
    go m' none v' same true = rw (same refl) (poll_frame_total m frames v d)
