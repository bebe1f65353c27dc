-- ===== src/Manager/Consistent.antt =====
-- runner_manager.rs: how the parts of the manager's state fit together.
use bolt_load.Prelude.{
  ℕ, ◌<◌, ◌≡◌, ◌≢◌, inl, inr, Bool, true, false, ◌||◌, none, some, List, [], ◌∷◌, arith, ◌==◌,
  if◌then◌else◌, is_some, u64_mod, Option-cases,
}
use bolt_load.OrdMap.{get}
use bolt_load.Adapter.Error.{Text}
use bolt_load.Ids.Generator.{Generator, bit_at, release}
use bolt_load.Ids.Bits.{bit_at-set_bit, bit_at-length, bit_at-clear_bits}
use bolt_load.Ids.Valid as IdsValid
use bolt_load.Ids.Valid.{Release, frees, ignores, release_cases, release-IsValid}
use bolt_load.Planner.Chunk.{ChunkState}
use bolt_load.Planner.State.{get_runner_state}
use bolt_load.Planner.Valid as PlannerValid
use bolt_load.Strategy.Sampler.{RunnerOutcomeSampler}
use bolt_load.Manager.Types.{RunnerManager, new}
use bolt_load.Manager.State.{is_connecting}

-- Whether a runner's spawn was rejected and not reported yet.
abbrev pub is_rejected : ℕ → List (ℕ × Text) → Bool
is_rejected id [] = false
is_rejected id ((j, message) ∷ rest) = j == id || is_rejected id rest

abbrev pub IsDistinct : List (ℕ × Text) → Type 0
IsDistinct [] = Unit
IsDistinct ((id, message) ∷ rest) = (is_rejected id rest ≡ false) × IsDistinct rest

abbrev pub has {ℓ} : {V : Type ℓ} → ℕ → List (ℕ × V) → Bool
has id m = is_some (get id m)

abbrev pub is_used : RunnerManager → ℕ → Bool
is_used m id = bit_at m.id_generator.bits id

-- An id is in use exactly when it has a chunk, and exactly when it has a mailbox for limits; a runner
-- whose events are received has an id in use, and the data of one that connects is set aside; a
-- rejected spawn holds an id, is noted once, and has no events.
pub record IsConsistent (m : RunnerManager) : Type 0 where
  pub ids : IdsValid.IsValid m.id_generator
  pub planner : PlannerValid.IsValid m.chunk_planner
  pub assigned : (id : ℕ) → is_used m id ≡ is_some (get_runner_state m.chunk_planner id)
  pub limited : (id : ℕ) → is_used m id ≡ has id m.limit_senders
  pub listening : (id : ℕ) → has id m.lifecycle_aggregator ≡ true → is_used m id ≡ true
  pub receiving : (id : ℕ) → has id m.data_aggregator ≡ true → is_used m id ≡ true
  pub connecting :
      (id : ℕ)
      → has id m.lifecycle_aggregator ≡ true
      → is_connecting m id ≡ true
      → has id m.connecting_data ≡ true
  pub rejected :
      (id : ℕ)
      → is_rejected id m.spawn_failures ≡ true
      → (is_used m id ≡ true) × (has id m.lifecycle_aggregator ≡ false)
  pub distinct : IsDistinct m.spawn_failures

pub new-IsConsistent :
    (total concurrency : ℕ) (sampler : RunnerOutcomeSampler)
    → total < u64_mod
    → concurrency < u64_mod
    → IsConsistent (new total concurrency sampler)
unfolding get get_runner_state
new-IsConsistent total concurrency sampler fits fits' = record {
  ids = IdsValid.new-IsValid concurrency fits';
  planner = PlannerValid.new-IsValid total fits;
  assigned = bit_at-clear_bits concurrency;
  limited = bit_at-clear_bits concurrency;
  listening = λ id h. absurd (ground arith);
  receiving = λ id h. absurd (ground arith);
  connecting = λ id h h'. absurd (ground arith);
  rejected = λ id h. absurd (ground arith);
  distinct = tt;
}

-- A runner with an id in use has a chunk.
pub chunk_of :
    (m : RunnerManager) (id : ℕ)
    → IsConsistent m
    → is_used m id ≡ true
    → (c : ChunkState) × (get_runner_state m.chunk_planner id ≡ some c)
chunk_of m id consistent used = elim (Option-cases (get_runner_state m.chunk_planner id)) [
  | inr chunk ↦ chunk
  | inl missing ↦ absurd (ground (arith, consistent.assigned id, used, missing))
]

-- A map after a runner was taken out.
abbrev pub IsWithout {ℓ} : {V : Type ℓ} → ℕ → (before after : List (ℕ × V)) → Type ℓ
IsWithout id before after = (j : ℕ) → get j after ≡ (if id == j then none else get j before)

-- What a manager is after a runner was released and the planner has given up its chunk.
pub record IsDismissed (id : ℕ) (m m' : RunnerManager) : Type 0 where
  pub ids : m'.id_generator ≡ (release m.id_generator id).0
  pub planner : PlannerValid.IsValid m'.chunk_planner
  pub gone : get_runner_state m'.chunk_planner id ≡ none
  pub others :
      (j : ℕ) → id ≢ j → get_runner_state m'.chunk_planner j ≡ get_runner_state m.chunk_planner j
  pub limits : IsWithout id m.limit_senders m'.limit_senders
  pub lifecycle : IsWithout id m.lifecycle_aggregator m'.lifecycle_aggregator
  pub data_frames : IsWithout id m.data_aggregator m'.data_aggregator
  pub set_aside : IsWithout id m.connecting_data m'.connecting_data
  pub reports :
      (j : ℕ)
      → is_rejected j m'.spawn_failures ≡ true
      → (is_rejected j m.spawn_failures ≡ true) × (id ≢ j)
  pub distinct : IsDistinct m'.spawn_failures

pub bit_at-release :
    (g : Generator) (id j : ℕ)
    → bit_at (release g id).0.bits j ≡ (if id == j then false else bit_at g.bits j)
bit_at-release g id j = after (release g id) (release_cases g id)
  where
    after :
        (r : Generator × Bool)
        → Release g id r
        → bit_at r.0.bits j ≡ (if id == j then false else bit_at g.bits j)
    after _ (frees taken) =
        ground (arith, bit_at-set_bit g.bits id false (bit_at-length g.bits id taken) j)
    after _ (ignores free) = ground (arith, free)

used-dismissed :
    (id : ℕ) (m m' : RunnerManager) (j : ℕ)
    → m'.id_generator ≡ (release m.id_generator id).0
    → is_used m' j ≡ (if id == j then false else is_used m j)
used-dismissed id m m' j h = rw h (bit_at-release m.id_generator id j)

pub dismissed-IsConsistent :
    (id : ℕ) (m m' : RunnerManager) → IsConsistent m → IsDismissed id m m' → IsConsistent m'
dismissed-IsConsistent id m m' v d =
    let used = λ (j : ℕ). used-dismissed id m m' j d.ids in
    record {
      ids = rw d.ids (release-IsValid m.id_generator id v.ids);
      planner = d.planner;
      assigned = λ j. ground (arith, used j, d.gone, d.others j, v.assigned j);
      limited = λ j. ground (arith, used j, d.limits j, v.limited j);
      listening = λ j h. ground (arith, used j, d.lifecycle j, v.listening j, h);
      receiving = λ j h. ground (arith, used j, d.data_frames j, v.receiving j, h);
      connecting =
          λ j h c. ground (arith, d.lifecycle j, d.set_aside j, d.others j, v.connecting j, h, c);
      rejected = λ j h. ground (arith, used j, d.lifecycle j, d.reports j h, v.rejected j);
      distinct = d.distinct;
    }
