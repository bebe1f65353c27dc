-- ===== src/Strategy/Loop.antt =====
-- The iterations of the dynamic strategy's loop.
use bolt_load.Prelude.{
  ◌-◌, ◌≡◌, min, u64_mod, ◌+◌, ◌*◌, refl, ◌&&◌, inl, inr, Option, some, List, [], ◌∷◌, ltb,
  Bool-cases,
}
use bolt_load.Strategy.Dynamic
use bolt_load.Strategy.Float.{Float}
use bolt_load.Strategy.Concurrency.{StrategyAction, split_all_task, split_given_task}
use bolt_load.Strategy.Dynamic.{
  proceed, DynamicPlannerStage, DynamicStrategy, DynamicStrategyContext, run, Iteration, iteration,
  steady_iteration, quick_start_iteration, quick_start, steady, continue, done,
}

module _ (f : Float) where
  steady_total :
      (s : DynamicStrategy f) (c : DynamicStrategyContext f)
      (next : DynamicStrategy f → Option (DynamicStrategy f × List StrategyAction))
      → (s' : DynamicStrategy f) × (actions : List StrategyAction) × (proceed f next
            (steady_iteration f s c)
          ≡ some (s', actions))
  steady_total s c next =
      let s' : DynamicStrategy f = record s { previous_total_download_speed = c.speed } in
      elim (Bool-cases (
        f.lt s.threashold2
          (f.abs (f.sub c.speed (f.add s.previous_total_download_speed c.per_runner_speed)))
        && ltb (min (c.current_concurrency + 1) (u64_mod - 1)) c.max_concurrency)) [
          | inl k ↦ (s', split_given_task c.remaining_largest_runner_id ∷ [], rw k refl)
          | inr k ↦ (s', [], rw k refl)
        ]

  -- Two iterations are enough, from either stage.
  proceed_total :
      (s : DynamicStrategy f) (c : DynamicStrategyContext f) (stage : DynamicPlannerStage)
      → (s' : DynamicStrategy f) × (actions : List StrategyAction) × (proceed f
            (λ s'. run f 1 s' c)
            (iteration f s c stage)
          ≡ some (s', actions))
  unfolding run
  proceed_total s c steady = steady_total s c _
  proceed_total s c quick_start =
      elim (Bool-cases (
        f.lt s.threashold1
          (f.abs (f.sub c.speed (f.mul (f.tenths 20) s.previous_total_download_speed)))
        && ltb (min (c.current_concurrency * 2) (u64_mod - 1)) c.max_concurrency)) [
          | inl k ↦ (
            record s { previous_total_download_speed = c.speed },
            split_all_task c.planned_chunk_size ∷ [],
            rw k refl,
          )
          | inr k ↦
              let s' : DynamicStrategy f = record s { current_stage = steady } in
              rw k (steady_total s' c (λ s''. run f 0 s'' c))
        ]

  pub dynamic_total :
      (s : DynamicStrategy f) (c : DynamicStrategyContext f)
      → (s' : DynamicStrategy f) × (actions : List StrategyAction) × (Dynamic.step f s c
          ≡ some (s', actions))
  unfolding Dynamic.step run
  dynamic_total s c = proceed_total s c s.current_stage
