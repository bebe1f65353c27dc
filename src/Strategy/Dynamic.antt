-- ===== src/Strategy/Dynamic.antt =====
-- strategy/dynamic_strategy.rs: when to split the work of the runners, from the speed.
use bolt_load.Prelude.{
  ℕ, zero, suc, ◌-◌, ◌*◌, ◌+◌, ◌&&◌, Option, none, some, List, [], ◌∷◌, ltb, if◌then◌else◌, min,
  u64_mod,
}
use bolt_load.Strategy.Float.{Float}
use bolt_load.Strategy.Concurrency.{StrategyAction, split_all_task, split_given_task}

pub data DynamicPlannerStage : Type 0 where
  quick_start steady : DynamicPlannerStage

module _ (f : Float) where
  pub record DynamicStrategy : Type 0 where
    pub threashold1 : f.Carrier
    pub threashold2 : f.Carrier
    pub current_stage : DynamicPlannerStage
    pub previous_total_download_speed : f.Carrier

  pub record DynamicStrategyContext : Type 0 where
    pub speed : f.Carrier
    pub per_runner_speed : f.Carrier
    pub current_concurrency : ℕ
    pub max_concurrency : ℕ
    pub planned_chunk_size : ℕ
    pub remaining_largest_runner_id : ℕ

  -- `Default`.
  abbrev pub default_strategy : DynamicStrategy
  default_strategy = record {
    threashold1 = f.tenths 10485760;
    threashold2 = f.tenths 10485760;
    current_stage = quick_start;
    previous_total_download_speed = f.tenths 0;
  }

  -- What an iteration of the loop comes to: another one, or the end of the loop with the actions.
  pub data Iteration : Type 0 where
    continue : DynamicStrategy → Iteration
    done : DynamicStrategy → List StrategyAction → Iteration

  abbrev pub quick_start_iteration : DynamicStrategy → DynamicStrategyContext → Iteration
  quick_start_iteration s c =
      if f.lt s.threashold1
          (f.abs (f.sub c.speed (f.mul (f.tenths 20) s.previous_total_download_speed)))
        && ltb (min (c.current_concurrency * 2) (u64_mod - 1)) c.max_concurrency
      then done (record s { previous_total_download_speed = c.speed })
          (split_all_task c.planned_chunk_size ∷ [])
      else continue (record s { current_stage = steady })

  abbrev pub steady_iteration : DynamicStrategy → DynamicStrategyContext → Iteration
  steady_iteration s c =
      if f.lt s.threashold2
          (f.abs (f.sub c.speed (f.add s.previous_total_download_speed c.per_runner_speed)))
        && ltb (min (c.current_concurrency + 1) (u64_mod - 1)) c.max_concurrency
      then done (record s { previous_total_download_speed = c.speed })
          (split_given_task c.remaining_largest_runner_id ∷ [])
      else done (record s { previous_total_download_speed = c.speed }) []

  abbrev pub iteration : DynamicStrategy → DynamicStrategyContext → DynamicPlannerStage → Iteration
  iteration s c quick_start = quick_start_iteration s c
  iteration s c steady = steady_iteration s c

  -- The end of an iteration: `next` is the rest of the loop.
  abbrev pub proceed :
      (DynamicStrategy → Option (DynamicStrategy × List StrategyAction))
      → Iteration
      → Option (DynamicStrategy × List StrategyAction)
  proceed next (continue s) = next s
  proceed next (done s actions) = some (s, actions)

  -- The loop, with fuel for that many iterations; `none` is running out of it.
  unfoldable pub run :
      ℕ → DynamicStrategy → DynamicStrategyContext → Option (DynamicStrategy × List StrategyAction)
  run zero s c = none
  run (suc n) s c = proceed (λ s'. run n s' c) (iteration s c s.current_stage)

  -- `step`: the loop takes at most two iterations.
  unfoldable pub step :
      DynamicStrategy → DynamicStrategyContext → Option (DynamicStrategy × List StrategyAction)
  unfolding run
  step s c = run 2 s c
