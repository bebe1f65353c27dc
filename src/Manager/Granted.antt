-- ===== src/Manager/Granted.antt =====
-- runner_manager.rs: `spawn_runner_with_chunk` where an id and the range are free, and as a whole.
use bolt_load.Prelude.{
  ℕ, ap, ◌<◌, ◌≡◌, ◌≢◌, refl, ◌⊎◌, inl, inr, Bool, true, false, ◌||◌, Option, some, List, [], ◌∷◌,
  ◌++◌, Result, ok, err, arith, ◌==◌, is_some, length,
}
use bolt_load.OrdMap.{get-insert}
use bolt_load.Adapter.Error.{Text}
use bolt_load.Ids.Generator.{Generator, next}
use bolt_load.Ids.Valid.{Next, all_taken, takes, next_cases, take_index-IsValid}
use bolt_load.Planner.Chunk.{Range, new_chunk, pending}
use bolt_load.Planner.State.{ChunkPlanner, allocate_pending_chunk, get_runner_state}
use bolt_load.Planner.Valid as PlannerValid
use bolt_load.Planner.Valid.Split.{allocate_chunk_inner-IsValid}
use bolt_load.Planner.Assigned.{IsAllocated, allocate_pending_chunk_lem}
use bolt_load.Manager.Types.{RunnerManager, limit_mailbox, abandoned_mailbox}
use bolt_load.Manager.State.{
  allocate_runner, release_runner, register_runner_channels, record_spawned,
  spawn_runner_with_chunk, spawn_on, spawn_registered, with_mailbox,
}
use bolt_load.Manager.Consistent.{is_rejected, IsDistinct, has, is_used, IsConsistent}
use bolt_load.Manager.Spawn.{
  registered, used-take, unused, IsSpawned, IsRefused, used-refused, refused_limits,
  refused-IsConsistent,
}

is_rejected-append :
    (j id : ℕ) (message : Text) (xs : List (ℕ × Text))
    → is_rejected j (xs ++ (id, message) ∷ []) ≡ (is_rejected j xs || id == j)
is_rejected-append j id message [] = ground arith
is_rejected-append j id message ((k, t) ∷ xs) = ground (arith, is_rejected-append j id message xs)

append-IsDistinct :
    (id : ℕ) (message : Text) (xs : List (ℕ × Text))
    → is_rejected id xs ≡ false
    → IsDistinct xs
    → IsDistinct (xs ++ (id, message) ∷ [])
append-IsDistinct id message [] h d = (refl, tt)
append-IsDistinct id message ((k, t) ∷ xs) h d = (
  ground (arith, is_rejected-append k id message xs, d.0, h),
  append-IsDistinct id message xs (ground (arith, h)) d.1,
)

module _ (m : RunnerManager) (id : ℕ) (v : IsConsistent m) (lt : id < length m.id_generator.bits)
    (free : is_used m id ≡ false) (r : Range) (q : ChunkPlanner) (valid : PlannerValid.IsValid q)
    (given : get_runner_state q id ≡ some (new_chunk r (some id) pending))
    (others : (j : ℕ) → id ≢ j → get_runner_state q j ≡ get_runner_state m.chunk_planner j) where
  granted : RunnerManager
  granted = record (registered m id) { chunk_planner = q }

  assigned : (j : ℕ) → is_used granted j ≡ is_some (get_runner_state q j)
  unfolding granted
  assigned j = ground (arith, used-take m id j lt, v.assigned j, given, others j)

  limited : (j : ℕ) → is_used granted j ≡ has j granted.limit_senders
  unfolding granted
  limited j =
      ground
        (arith, used-take m id j lt, v.limited j, get-insert j id limit_mailbox m.limit_senders)

  still_used : (j : ℕ) → is_used m j ≡ true → is_used granted j ≡ true
  unfolding granted
  still_used j h = ground (arith, used-take m id j lt, h)

  record_spawned-IsConsistent :
      (spawned : Result (ℕ × ℕ) Text) → IsConsistent (record_spawned granted id spawned)
  unfolding granted register_runner_channels
  record_spawned-IsConsistent (ok (lifecycle_rx, data_rx)) =
      let lifecycle = λ (j : ℕ). get-insert j id lifecycle_rx m.lifecycle_aggregator in
      rw (given, register_runner_channels)
        (record {
          ids = take_index-IsValid m.id_generator id v.ids lt free;
          planner = valid;
          assigned = assigned;
          limited = limited;
          listening = λ j h.
              ground (arith, still_used j, used-take m id j lt, lifecycle j, v.listening j, h);
          receiving = λ j h. still_used j (v.receiving j h);
          connecting = λ j h c. ground (
            arith,
            lifecycle j,
            get-insert j id data_rx m.connecting_data,
            others j,
            v.connecting j,
            h,
            c,
          );
          rejected = λ j h.
              ground (arith, still_used j, lifecycle j, v.rejected j h, unused m id v lt free, h);
          distinct = v.distinct;
        })
  record_spawned-IsConsistent (err message) = record {
    ids = take_index-IsValid m.id_generator id v.ids lt free;
    planner = valid;
    assigned = assigned;
    limited = λ j. ground (
      arith,
      limited j,
      used-take m id j lt,
      get-insert j id abandoned_mailbox granted.limit_senders,
    );
    listening = λ j h. still_used j (v.listening j h);
    receiving = λ j h. still_used j (v.receiving j h);
    connecting = λ j h c. ground (arith, others j, v.connecting j, unused m id v lt free, h, c);
    rejected = λ j h. ground (
      arith,
      is_rejected-append j id message m.spawn_failures,
      still_used j,
      used-take m id j lt,
      v.rejected j,
      unused m id v lt free,
      h,
    );
    distinct = append-IsDistinct id message m.spawn_failures (unused m id v lt free).2 v.distinct;
  }

  record_spawned-IsSpawned :
      (spawned : Result (ℕ × ℕ) Text) → IsSpawned m r id spawned (record_spawned granted id spawned)
  unfolding granted register_runner_channels
  record_spawned-IsSpawned (ok (lifecycle_rx, data_rx)) =
      rw (given, register_runner_channels)
        (
          free,
          given,
          others,
          (
            ground (arith, get-insert id id lifecycle_rx m.lifecycle_aggregator),
            ground (arith, get-insert id id data_rx m.connecting_data),
            refl,
          ),
        )
  record_spawned-IsSpawned (err message) = (free, given, others, refl)

-- Why a request is refused: every id is in use, or the planner does not take the range.
abbrev pub HasNoRoom : RunnerManager → Range → Type 0
HasNoRoom m r =
    ((k : ℕ) → k < length m.id_generator.bits → is_used m k ≡ true)
    ⊎ ((id : ℕ) × ((allocate_pending_chunk m.chunk_planner r id).1 ≡ false))

abbrev pub IsAnswered :
    RunnerManager → Range → (ℕ → Result (ℕ × ℕ) Text) → RunnerManager × Bool → Type 0
IsAnswered m r spawn (m', done) =
    IsConsistent m'
    × (((done ≡ true) × ((id : ℕ) × IsSpawned m r id (spawn id) m'))
        ⊎ ((done ≡ false) × IsRefused m m' × HasNoRoom m r))

-- With a free id in hand.
spawn_on-IsAnswered :
    (m : RunnerManager) (r : Range) (spawn : ℕ → Result (ℕ × ℕ) Text) (id : ℕ)
    → IsConsistent m
    → id < length m.id_generator.bits
    → is_used m id ≡ false
    → (allocated : ChunkPlanner × Bool) → allocate_pending_chunk m.chunk_planner r id ≡ allocated
    → PlannerValid.IsValid allocated.0
    → IsAllocated m.chunk_planner r id allocated
    → IsAnswered m r spawn (spawn_on (registered m id) id spawn allocated)
unfolding release_runner granted
spawn_on-IsAnswered m r spawn id v lt free (q, false) e valid (inl (_, same)) = rw same (
  refused-IsConsistent m id v lt free,
  inr (
    refl,
    (refl, used-refused m id v lt free, refused_limits m id v lt free),
    inr (id, ap (λ a. a.1) e),
  ),
)
spawn_on-IsAnswered m r spawn id v lt free (q, false) e valid (inr (fits, _, _)) = absurd (cc)
spawn_on-IsAnswered m r spawn id v lt free (q, true) e valid (inl (refused, _)) = absurd (cc)
spawn_on-IsAnswered m r spawn id v lt free (q, true) e valid (inr (_, given, others)) = (
  record_spawned-IsConsistent m id v lt free r q valid given others (spawn id),
  inl (refl, (id, record_spawned-IsSpawned m id v lt free r q valid given others (spawn id))),
)

-- On a consistent manager, `spawn_runner_with_chunk` leaves the manager consistent. Either it is
-- granted: an id that was not in use is taken, the runner has the range as its pending chunk, the other
-- runners keep theirs, and the channels, or the rejection of the spawn, are kept for the runner. Or
-- it is refused, since every id is in use or since the planner does not take the range: then the planner, the
-- ids in use and the mailboxes are as before.
pub spawn_runner_with_chunk_lem :
    (m : RunnerManager) (r : Range) (spawn : ℕ → Result (ℕ × ℕ) Text)
    → IsConsistent m
    → IsAnswered m r spawn (spawn_runner_with_chunk m r spawn)
unfolding spawn_runner_with_chunk allocate_runner
spawn_runner_with_chunk_lem m r spawn v =
    after (next m.id_generator) (next_cases m.id_generator v.ids)
  where
    after :
        (n : Generator × Option ℕ)
        → Next m.id_generator n
        → IsAnswered m r spawn (spawn_registered (with_mailbox m n) r spawn)
    after _ (all_taken taken) = (v, inr (refl, (refl, (λ j. refl), (λ j. refl)), inl taken))
    after _ (takes id lt free) =
        spawn_on-IsAnswered m r spawn id v lt free (allocate_pending_chunk m.chunk_planner r id)
          refl (allocate_chunk_inner-IsValid m.chunk_planner r (some id) pending v.planner)
          (allocate_pending_chunk_lem m.chunk_planner r id v.planner)
