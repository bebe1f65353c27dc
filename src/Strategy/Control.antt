-- ===== src/Strategy/Control.antt =====
-- strategy/mod.rs: `StrategyControl` asks the concurrency control first, and the dynamic strategy when
-- that has nothing to do. `none` is a panic: of the sampler, of the `expect` on the runner to split, or
-- of the dynamic strategy's loop.
use bolt_load.Prelude.{
  is_empty, ℕ, not, ◌&&◌, Option, none, some, List, ltb, leb, if◌then◌else◌, sub64,
}
use bolt_load.Planner.Chunk.{Range}
use bolt_load.Planner.State.{ChunkPlanner}
use bolt_load.Planner.Queries.{get_available_ranges, get_active_runners_count, find_chunk_to_split}
use bolt_load.Strategy.Concurrency
use bolt_load.Strategy.Dynamic
use bolt_load.Strategy.Float.{Float}
use bolt_load.Strategy.Sampler.{RunnerOutcomeSampler}
use bolt_load.Strategy.Concurrency.{
  StrategyAction, Context, Readings, ConcurrencyControlStrategy, default_config,
}
use bolt_load.Strategy.Dynamic.{DynamicStrategy, DynamicStrategyContext, default_strategy}

-- `Strategy::name`.
pub data StrategyName : Type 0 where
  concurrency_control dynamic : StrategyName

-- What `execute` reads and changes of the `RunnerManager`.
pub record Runners : Type 0 where
  pub chunk_planner : ChunkPlanner
  pub runner_outcome_sampler : RunnerOutcomeSampler

abbrev pub named : StrategyName → List StrategyAction → Option (StrategyName × List StrategyAction)
named name actions = if not (is_empty actions) then some (name, actions) else none

-- The chunk to split, if there is a free runner and enough to download; the inner option is the one
-- of `find_chunk_to_split`.
abbrev pub wide_enough :
    (max_concurrency active planned : ℕ) → Option (Option ℕ × Range) → Option (Option ℕ)
wide_enough max_concurrency active planned none = none
wide_enough max_concurrency active planned (some (id, r)) =
    if ltb active max_concurrency && leb planned (sub64 r.end r.start) then some id else none

module _ (f : Float) where
  pub record StrategyControl : Type 0 where
    pub dynamic_strategy : DynamicStrategy f
    pub concurrency_control_strategy : ConcurrencyControlStrategy f

  abbrev pub new : ℕ → StrategyControl
  new initial_max_concurrency = record {
    dynamic_strategy = default_strategy f;
    concurrency_control_strategy = Concurrency.new f (default_config f) initial_max_concurrency;
  }

  -- What `execute` returns: the strategies, the sampler, and the actions with their strategy's name.
  abbrev pub Executed : Type 0
  Executed = StrategyControl × RunnerOutcomeSampler × Option (StrategyName × List StrategyAction)

  -- The second half of `execute`.
  abbrev pub execute_dynamic :
      StrategyControl
      → (max_concurrency active planned : ℕ) → (speed per_runner : f.Carrier) → RunnerOutcomeSampler
      → Option (Option ℕ)
      → Option Executed
  execute_dynamic s max_concurrency active planned speed per_runner sampler none =
      some (s, sampler, none)
  execute_dynamic s max_concurrency active planned speed per_runner sampler (some none) = none
  execute_dynamic s max_concurrency active planned speed per_runner sampler (some (some id)) =
      elim (Dynamic.step f s.dynamic_strategy (record {
        speed = speed;
        per_runner_speed = per_runner;
        current_concurrency = active;
        max_concurrency = max_concurrency;
        planned_chunk_size = planned;
        remaining_largest_runner_id = id;
      })) [
        | none ↦ none
        | some (d, actions) ↦
            some (record s { dynamic_strategy = d }, sampler, named dynamic actions)
      ]

  unfoldable pub execute :
      StrategyControl → ℕ → (speed per_runner : f.Carrier) → Runners → Readings → Option Executed
  unfolding Concurrency.step Dynamic.step find_chunk_to_split
  execute s max_concurrency speed per_runner m t =
      let p = m.chunk_planner in
      let active = get_active_runners_count p in
      elim (Concurrency.step f s.concurrency_control_strategy
        (record {
          max_concurrency = max_concurrency;
          active_runners = active;
          sampler = m.runner_outcome_sampler;
          available_chunks = get_available_ranges p;
        })
        t) [
          | none ↦ none
          | some (c, sampler, actions) ↦
              let s' : StrategyControl = record s { concurrency_control_strategy = c } in
              if not (is_empty actions)
              then some (s', sampler, some (concurrency_control, actions))
              else (let planned = f.to_nat (f.mul speed (f.tenths 20)) in
                  execute_dynamic s' max_concurrency active planned speed per_runner sampler
                    (wide_enough max_concurrency active planned (find_chunk_to_split p planned)))
        ]
