-- ===== src/Strategy/Concurrency.antt =====
-- strategy/concurrency_control_strategy.rs: how many runners the task may have, from their outcomes.
-- `usize` has 64 bits.
use bolt_load.Prelude.{
  is_empty, ℕ, zero, suc, ◌-◌, Bool, true, false, not, ◌&&◌, Option, none, some, List, [], ◌∷◌, ltb,
  leb, if◌then◌else◌, min, max, add64,
}
use bolt_load.Planner.Chunk.{Range}
use bolt_load.Strategy.Float.{Float}
use bolt_load.Strategy.Sampler.{
  RunnerOutcomeSampler, OutcomeStats, total_failures, failure_rate, stats, has_recent_unretryable,
}

-- strategy/mod.rs.
pub data StrategyAction : Type 0 where
  change_max_concurrency : ℕ → StrategyAction
  split_all_task : ℕ → StrategyAction
  split_given_task : ℕ → StrategyAction
  create_task : Range → StrategyAction

pub data StrategyState : Type 0 where
  normal : StrategyState
  degraded : (target degraded_at : ℕ) → StrategyState
  recovering : (trial started_at initial_failures : ℕ) → StrategyState

-- The readings of the clock that a step makes: its own, that of `has_recent_unretryable`, and that of
-- `stats`.
pub record Readings : Type 0 where
  pub now : ℕ
  pub recent : ℕ
  pub sampled : ℕ

pub record Context : Type 0 where
  pub max_concurrency : ℕ
  pub active_runners : ℕ
  pub sampler : RunnerOutcomeSampler
  pub available_chunks : List Range

-- `iter().take(n)` with `StrategyAction::CreateTask` of each.
abbrev pub create_tasks : ℕ → List Range → List StrategyAction
create_tasks zero rs = []
create_tasks (suc n) [] = []
create_tasks (suc n) (r ∷ rs) = create_task r ∷ create_tasks n rs

-- With nothing to change, free places are filled.
abbrev pub or_create_tasks : Context → List StrategyAction → List StrategyAction
or_create_tasks c actions =
    if not (is_empty actions)
    then actions
    else if ltb c.active_runners c.max_concurrency
    then create_tasks (c.max_concurrency - c.active_runners) c.available_chunks
    else actions

module _ (f : Float) where
  pub record Config : Type 0 where
    pub failure_rate_threshold : f.Carrier
    pub min_samples : ℕ
    pub recovery_delay : ℕ
    pub recovery_observation_period : ℕ
    pub degradation_step : ℕ
    pub recovery_step : ℕ
    pub min_concurrency : ℕ
    pub unretryable_detection_window : ℕ

  pub record ConcurrencyControlStrategy : Type 0 where
    pub config : Config
    pub state : StrategyState
    pub initial_max_concurrency : ℕ
    pub first_execute : Bool

  abbrev pub new : Config → ℕ → ConcurrencyControlStrategy
  new config initial = record {
    config = config;
    state = normal;
    initial_max_concurrency = initial;
    first_execute = true;
  }

  -- `Default`, with the durations in milliseconds.
  abbrev pub default_config : Config
  default_config = record {
    failure_rate_threshold = f.tenths 3;
    min_samples = 5;
    recovery_delay = 30000;
    recovery_observation_period = 15000;
    degradation_step = 1;
    recovery_step = 1;
    min_concurrency = 1;
    unretryable_detection_window = 5000;
  }

  abbrev pub handle_immediate_degradation :
      ConcurrencyControlStrategy → Context → ℕ → ConcurrencyControlStrategy × List StrategyAction
  handle_immediate_degradation s c now =
      let new_concurrency = max (max c.active_runners s.config.min_concurrency) 1 in
      (
        record s { state = degraded new_concurrency now },
        change_max_concurrency new_concurrency ∷ [],
      )

  -- The concurrency after a fallback from `current`: `saturating_sub` and `max`.
  abbrev pub lowered : ConcurrencyControlStrategy → (current step : ℕ) → ℕ
  lowered s current step = max (current - step) s.config.min_concurrency

  -- `(current + recovery_step).min(initial_max_concurrency)`.
  abbrev pub raised : ConcurrencyControlStrategy → (current : ℕ) → ℕ
  raised s current = min (add64 current s.config.recovery_step) s.initial_max_concurrency

  -- The strategy changes to a state and tells the new concurrency.
  abbrev pub change_to :
      ConcurrencyControlStrategy
      → StrategyState
      → ℕ
      → ConcurrencyControlStrategy × List StrategyAction
  change_to s state concurrency =
      (record s { state = state }, change_max_concurrency concurrency ∷ [])

  abbrev pub handle_normal_state :
      ConcurrencyControlStrategy
      → Context
      → OutcomeStats
      → ℕ
      → ConcurrencyControlStrategy × List StrategyAction
  handle_normal_state s c st now =
      if ltb st.total s.config.min_samples
      then (s, [])
      else if f.le s.config.failure_rate_threshold (failure_rate f st)
          && ltb s.config.min_concurrency c.max_concurrency
      then (let lower = lowered s c.max_concurrency s.config.degradation_step in
          change_to s (degraded lower now) lower)
      else (s, [])

  abbrev pub handle_degraded_state :
      ConcurrencyControlStrategy
      → OutcomeStats
      → (now target degraded_at : ℕ) → ConcurrencyControlStrategy × List StrategyAction
  handle_degraded_state s st now target degraded_at =
      if ltb (now - degraded_at) s.config.recovery_delay
      then (s, [])
      else if f.lt (failure_rate f st) (f.mul s.config.failure_rate_threshold (f.tenths 5))
      then (let trial = raised s target in
          if ltb target trial
          then change_to s (recovering trial now (total_failures st)) trial
          else (record s { state = normal }, []))
      else (s, [])

  abbrev pub recovery_failure_rate : OutcomeStats → ℕ → f.Carrier
  recovery_failure_rate st initial_failures =
      let samples = st.total - initial_failures in
      if ltb 0 samples
      then f.div (f.of_nat (total_failures st - initial_failures)) (f.of_nat samples)
      else f.of_nat 0

  abbrev pub handle_recovering_state :
      ConcurrencyControlStrategy
      → OutcomeStats
      → (now trial started_at initial_failures : ℕ)
      → ConcurrencyControlStrategy × List StrategyAction
  handle_recovering_state s st now trial started_at initial_failures =
      if f.le s.config.failure_rate_threshold (failure_rate f st)
      then (let lower = lowered s trial s.config.degradation_step in
          change_to s (degraded lower now) lower)
      else if leb s.config.recovery_observation_period (now - started_at)
      then (if f.lt (recovery_failure_rate st initial_failures) s.config.failure_rate_threshold
          then (if ltb trial s.initial_max_concurrency
              then (let next = raised s trial in
                  change_to s (recovering next now (total_failures st)) next)
              else (record s { state = normal }, []))
          else (let lower = lowered s trial s.config.recovery_step in
              change_to s (degraded lower now) lower))
      else (s, [])

  abbrev pub handle_state :
      ConcurrencyControlStrategy
      → Context
      → OutcomeStats
      → ℕ
      → StrategyState
      → ConcurrencyControlStrategy × List StrategyAction
  handle_state s c st now normal = handle_normal_state s c st now
  handle_state s c st now (degraded target at) = handle_degraded_state s st now target at
  handle_state s c st now (recovering trial at failures) =
      handle_recovering_state s st now trial at failures

  -- A step after the first one; it returns the strategy, the sampler that it changed, and the actions;
  -- `none` is the panic of the sampler.
  unfoldable pub later_step :
      ConcurrencyControlStrategy
      → Context
      → Readings
      → Option (ConcurrencyControlStrategy × RunnerOutcomeSampler × List StrategyAction)
  unfolding stats has_recent_unretryable
  later_step s c t =
      let (sampler, recent) =
        has_recent_unretryable c.sampler s.config.unretryable_detection_window t.recent in
      if recent
      then (let (s', actions) = handle_immediate_degradation s c t.now in
          some (s', sampler, actions))
      else (elim (stats sampler t.sampled) [
        | none ↦ none
        | some (sampler', st) ↦
            let (s', actions) = handle_state s c st t.now s.state in
            some (s', sampler', or_create_tasks c actions)
      ])

  unfoldable pub step :
      ConcurrencyControlStrategy
      → Context
      → Readings
      → Option (ConcurrencyControlStrategy × RunnerOutcomeSampler × List StrategyAction)
  unfolding later_step
  step s c t =
      if s.first_execute
      then some (
        record s { first_execute = false },
        c.sampler,
        create_tasks c.max_concurrency c.available_chunks,
      )
      else later_step s c t
