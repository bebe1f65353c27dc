-- ===== src/Manager/Spawn.antt =====
-- runner_manager.rs: `spawn_runner_with_chunk` on a consistent manager.
use bolt_load.Prelude.{
  ℕ, ◌<◌, ◌≡◌, ◌≢◌, ◌∙◌, true, false, some, [], ◌∷◌, ◌++◌, Result, ok, err, arith, ◌==◌,
  if◌then◌else◌, length, Bool-cases,
}
use bolt_load.OrdMap.{get, insert, get-insert, get-remove}
use bolt_load.Adapter.Error.{Text}
use bolt_load.Ids.Generator.{take_index}
use bolt_load.Ids.Bits.{bit_at-set_bit}
use bolt_load.Ids.Valid.{release-IsValid, take_index-IsValid}
use bolt_load.Planner.Chunk.{Range, new_chunk, pending}
use bolt_load.Planner.State.{get_runner_state}
use bolt_load.Manager.Types.{RunnerManager, limit_mailbox}
use bolt_load.Manager.State.{release_runner}
use bolt_load.Manager.Consistent.{is_rejected, has, is_used, IsConsistent, bit_at-release}

-- The manager once an id was taken.
abbrev pub registered : RunnerManager → ℕ → RunnerManager
registered m id = record m {
  id_generator = take_index m.id_generator id;
  limit_senders = insert id limit_mailbox m.limit_senders;
}

pub used-take :
    (m : RunnerManager) (id j : ℕ)
    → id < length m.id_generator.bits
    → is_used (registered m id) j ≡ (if j == id then true else is_used m j)
used-take m id j lt = bit_at-set_bit m.id_generator.bits id true lt j

-- What is kept of the channels, or of the rejection.
abbrev pub IsNoted : RunnerManager → ℕ → Result (ℕ × ℕ) Text → RunnerManager → Type 0
IsNoted m id (ok (lifecycle_rx, data_rx)) m' =
    (get id m'.lifecycle_aggregator ≡ some lifecycle_rx)
    × (get id m'.connecting_data ≡ some data_rx)
    × (m'.spawn_failures ≡ m.spawn_failures)
IsNoted m id (err message) m' = m'.spawn_failures ≡ m.spawn_failures ++ (id, message) ∷ []

-- A request that was granted, with the id that was taken.
abbrev pub IsSpawned : RunnerManager → Range → ℕ → Result (ℕ × ℕ) Text → RunnerManager → Type 0
IsSpawned m r id spawned m' =
    (is_used m id ≡ false)
    × (get_runner_state m'.chunk_planner id ≡ some (new_chunk r (some id) pending))
    × ((j : ℕ) → id ≢ j → get_runner_state m'.chunk_planner j ≡ get_runner_state m.chunk_planner j)
    × IsNoted m id spawned m'

-- A request that was refused.
abbrev pub IsRefused : RunnerManager → RunnerManager → Type 0
IsRefused m m' =
    (m'.chunk_planner ≡ m.chunk_planner)
    × ((j : ℕ) → is_used m' j ≡ is_used m j)
    × ((j : ℕ) → get j m'.limit_senders ≡ get j m.limit_senders)

module _ (m : RunnerManager) (id : ℕ) (v : IsConsistent m) (lt : id < length m.id_generator.bits)
    (free : is_used m id ≡ false) where
  pub unused :
      (has id m.lifecycle_aggregator ≡ false)
      × (has id m.data_aggregator ≡ false)
      × (is_rejected id m.spawn_failures ≡ false)
      × (has id m.limit_senders ≡ false)
  unused = (
    ground (arith, v.listening id, free, Bool-cases (has id m.lifecycle_aggregator)),
    ground (arith, v.receiving id, free, Bool-cases (has id m.data_aggregator)),
    ground (arith, v.rejected id, free, Bool-cases (is_rejected id m.spawn_failures)),
    ground (arith, v.limited id, free),
  )

  pub used-refused : (j : ℕ) → is_used (release_runner (registered m id) id) j ≡ is_used m j
  unfolding release_runner
  used-refused j =
      ground (arith, bit_at-release (take_index m.id_generator id) id j, used-take m id j lt, free)

  pub refused_limits :
      (j : ℕ) → get j (release_runner (registered m id) id).limit_senders ≡ get j m.limit_senders
  unfolding release_runner
  refused_limits j = ground (
    arith,
    get-remove j id (insert id limit_mailbox m.limit_senders),
    get-insert j id limit_mailbox m.limit_senders,
    unused.3,
  )

  pub refused-IsConsistent : IsConsistent (release_runner (registered m id) id)
  unfolding release_runner
  refused-IsConsistent =
      let lifecycle = λ (j : ℕ). get-remove j id m.lifecycle_aggregator in
      record {
        ids = release-IsValid _ id (take_index-IsValid m.id_generator id v.ids lt free);
        planner = v.planner;
        assigned = λ j. used-refused j ∙ v.assigned j;
        limited = λ j. ground (arith, used-refused j, v.limited j, refused_limits j);
        listening = λ j h. ground (arith, used-refused j, lifecycle j, v.listening j, h);
        receiving = λ j h.
            ground (arith, used-refused j, get-remove j id m.data_aggregator, v.receiving j, h);
        connecting = λ j h c.
            ground (
              arith,
              lifecycle j,
              get-remove j id m.connecting_data,
              v.connecting j,
              h,
              c,
              unused.0,
            );
        rejected = λ j h. ground (arith, used-refused j, lifecycle j, v.rejected j, h);
        distinct = v.distinct;
      }
