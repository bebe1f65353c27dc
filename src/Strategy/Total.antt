-- ===== src/Strategy/Total.antt =====
-- The panics of `StrategyControl::execute`.
use bolt_load.Prelude.{
  is_empty, ℕ, zero, suc, ◌≤◌, ◌<◌, ◌≡◌, ◌≢◌, refl, ◌∙◌, sym, true, false, inl, inr, Option, none,
  some, List, [], ◌∷◌, ltb, arith, if_true, if_false, ltb→lt, Bool-cases, Option-cases,
}
use bolt_load.Planner.Chunk.{Range, ChunkState}
use bolt_load.Planner.State.{ChunkPlanner}
use bolt_load.Planner.Queries.{
  get_available_ranges, get_active_runners_count, find_chunk_to_split, best_candidate,
  pick_available,
}
use bolt_load.Planner.Available.{best_candidate_lem}
use bolt_load.Strategy.Concurrency
use bolt_load.Strategy.Float.{Float}
use bolt_load.Strategy.Sampler.{RunnerOutcomeSampler, has_recent_unretryable, stats}
use bolt_load.Strategy.Concurrency.{
  StrategyAction, split_all_task, split_given_task, create_tasks, or_create_tasks, Context,
  Readings, ConcurrencyControlStrategy, handle_immediate_degradation, handle_state, later_step,
}
use bolt_load.Strategy.Dynamic.{DynamicStrategyContext}
use bolt_load.Strategy.Control.{
  StrategyName, concurrency_control, Runners, StrategyControl, Executed, named, wide_enough,
  execute_dynamic, execute,
}
use bolt_load.Strategy.Clock.{stats_total, has_recent_unretryable-window}
use bolt_load.Strategy.Loop.{dynamic_total}

-- Places that are free and ranges that are available make for actions.
create_tasks-is_empty :
    (n : ℕ) (rs : List Range) → 0 < n → is_empty (create_tasks n rs) ≡ true → rs ≡ []
create_tasks-is_empty zero rs h e = absurd (omega arith)
create_tasks-is_empty (suc n) [] h e = refl
create_tasks-is_empty (suc n) (r ∷ rs) h e = absurd (ground arith)

or_create_tasks-is_empty :
    (c : Context) (actions : List StrategyAction)
    → ltb c.active_runners c.max_concurrency ≡ true
    → is_empty (or_create_tasks c actions) ≡ true
    → c.available_chunks ≡ []
or_create_tasks-is_empty c (a ∷ actions) l e = absurd (ground arith)
or_create_tasks-is_empty c [] l e =
    create_tasks-is_empty _ c.available_chunks (omega (arith, ltb→lt _ _ l)) (rw l at e)

-- With nothing available, the planner suggests only chunks of runners.
find_chunk_to_split-owner :
    (p : ChunkPlanner) (required : ℕ) (r : Range)
    → get_available_ranges p ≡ []
    → find_chunk_to_split p required ≢ some (none, r)
unfolding find_chunk_to_split pick_available
find_chunk_to_split-owner p required r none_free e = go (best_candidate p) refl
  where
    go : (b : Option ChunkState) → best_candidate p ≡ b → ⊥
    go none k = ground (arith, rw (none_free, find_chunk_to_split) at e)
    go (some c) k =
        ground (arith, rw (none_free, find_chunk_to_split) at e, best_candidate_lem p c k)

wide_enough-owner :
    (max_concurrency active planned : ℕ) (found : Option (Option ℕ × Range))
    → (ltb active max_concurrency ≡ true → (r : Range) → found ≢ some (none, r))
    → wide_enough max_concurrency active planned found ≢ some none
wide_enough-owner m active planned none h = λ e. ground arith
wide_enough-owner m active planned (some (some id, r)) h = λ e. ground arith
wide_enough-owner m active planned (some (none, r)) h = λ e. h (ground arith) r refl

module _ (f : Float) where
  execute_dynamic_total :
      (s : StrategyControl f) (max_concurrency active planned : ℕ) (speed per_runner : f.Carrier)
      (sampler : RunnerOutcomeSampler) (found : Option (Option ℕ))
      → found ≢ some none
      → (r : Executed f) × (execute_dynamic f s max_concurrency active planned speed per_runner
            sampler found
          ≡ some r)
  execute_dynamic_total s m active planned speed per_runner sampler none h = (_, refl)
  execute_dynamic_total s m active planned speed per_runner sampler (some none) h = absurd (h refl)
  execute_dynamic_total s m active planned speed per_runner sampler (some (some id)) h =
      let c : DynamicStrategyContext f = record {
        speed = speed;
        per_runner_speed = per_runner;
        current_concurrency = active;
        max_concurrency = m;
        planned_chunk_size = planned;
        remaining_largest_runner_id = id;
      } in
      let (d, actions, q) = dynamic_total f s.dynamic_strategy c in
      (
        (record s { dynamic_strategy = d }, sampler, named StrategyName.dynamic actions),
        rw (q, execute_dynamic) refl,
      )

  later_step_idle :
      (s s' : ConcurrencyControlStrategy f) (c : Context) (t : Readings)
      (sampler : RunnerOutcomeSampler) (actions : List StrategyAction)
      → later_step f s c t ≡ some (s', sampler, actions)
      → is_empty actions ≡ true
      → ltb c.active_runners c.max_concurrency ≡ true
      → c.available_chunks ≡ []
  unfolding later_step
  later_step_idle s s' c t sampler actions q e l =
      let recent =
        has_recent_unretryable c.sampler s.config.unretryable_detection_window t.recent in
      elim (Bool-cases recent.1) [
        | inl k ↦ absurd (ground (arith, rw k at q))
        | inr k ↦ elim (Option-cases (stats recent.0 t.sampled)) [
          | inl n ↦ absurd (ground (arith, rw (k, n) at q))
          | inr (r, n) ↦
              or_create_tasks-is_empty c (handle_state f s c r.1 t.now s.state).1 l
                (cc (rw (k, n) at q, e))
        ]
      ]

  -- A step that asks for nothing, with a free place, had nothing available.
  step_idle :
      (s s' : ConcurrencyControlStrategy f) (c : Context) (t : Readings)
      (sampler : RunnerOutcomeSampler) (actions : List StrategyAction)
      → Concurrency.step f s c t ≡ some (s', sampler, actions)
      → is_empty actions ≡ true
      → ltb c.active_runners c.max_concurrency ≡ true
      → c.available_chunks ≡ []
  unfolding Concurrency.step
  step_idle s s' c t sampler actions q e l = elim (Bool-cases s.first_execute) [
    | inl k ↦
        create_tasks-is_empty c.max_concurrency c.available_chunks (omega (arith, ltb→lt _ _ l))
          (cc (sym (if_true s.first_execute _ _ k) ∙ q, e))
    | inr k ↦
        later_step_idle s s' c t sampler actions (sym (if_false s.first_execute _ _ k) ∙ q) e l
  ]

  later_step_total :
      (s : ConcurrencyControlStrategy f) (c : Context) (t : Readings)
      → c.sampler.time_window ≤ t.sampled
      → (s' : ConcurrencyControlStrategy f) × (sampler : RunnerOutcomeSampler) × (actions : List
          StrategyAction)
        × (later_step f s c t ≡ some (s', sampler, actions))
  unfolding later_step
  later_step_total s c t h =
      let recent =
        has_recent_unretryable c.sampler s.config.unretryable_detection_window t.recent in
      elim (Bool-cases recent.1) [
        | inl k ↦
            let next = handle_immediate_degradation f s c t.now in
            (next.0, recent.0, next.1, rw k refl)
        | inr k ↦
            let (sampler, st, q) =
              stats_total recent.0 t.sampled
                (rw (has_recent_unretryable-window c.sampler _ t.recent) h) in
            let next = handle_state f s c st t.now s.state in
            (next.0, sampler, or_create_tasks c next.1, rw (k, q) refl)
      ]

  step_total :
      (s : ConcurrencyControlStrategy f) (c : Context) (t : Readings)
      → c.sampler.time_window ≤ t.sampled
      → (s' : ConcurrencyControlStrategy f) × (sampler : RunnerOutcomeSampler) × (actions : List
          StrategyAction)
        × (Concurrency.step f s c t ≡ some (s', sampler, actions))
  unfolding Concurrency.step
  step_total s c t h = elim (Bool-cases s.first_execute) [
    | inl e ↦ (
      record s { first_execute = false },
      c.sampler,
      create_tasks c.max_concurrency c.available_chunks,
      if_true s.first_execute _ _ e,
    )
    | inr e ↦
        let (s', sampler, actions, q) = later_step_total s c t h in
        (s', sampler, actions, if_false s.first_execute _ _ e ∙ q)
  ]

  -- `execute` does not panic, whatever the planner's chunks are, if the clock has run for longer than
  -- the sampler's window: the chunk that it splits has a runner, since the concurrency control asks
  -- for new runners as long as some range is available and a place is free; and the loop of the
  -- dynamic strategy ends.
  pub execute_total :
      (s : StrategyControl f) (max_concurrency : ℕ) (speed per_runner : f.Carrier) (m : Runners)
      (t : Readings)
      → m.runner_outcome_sampler.time_window ≤ t.sampled
      → (r : Executed f) × (execute f s max_concurrency speed per_runner m t ≡ some r)
  unfolding execute
  execute_total s max_concurrency speed per_runner m t h =
      let p = m.chunk_planner in
      let c : Context = record {
        max_concurrency = max_concurrency;
        active_runners = get_active_runners_count p;
        sampler = m.runner_outcome_sampler;
        available_chunks = get_available_ranges p;
      } in
      let planned = f.to_nat (f.mul speed (f.tenths 20)) in
      let (s', sampler, actions, q) = step_total s.concurrency_control_strategy c t h in
      elim (Bool-cases (is_empty actions)) [
        | inr e ↦ (
          (
            record s { concurrency_control_strategy = s' },
            sampler,
            some (concurrency_control, actions),
          ),
          rw (q, e, execute) refl,
        )
        | inl e ↦
            let found =
              wide_enough max_concurrency (get_active_runners_count p) planned
                (find_chunk_to_split p planned) in
            let owned : found ≢ some none =
              wide_enough-owner max_concurrency (get_active_runners_count p) planned
                (find_chunk_to_split p planned)
                (λ l r.
                  find_chunk_to_split-owner p planned r
                    (step_idle s.concurrency_control_strategy s' c t sampler actions q e l)) in
            let (r, k) =
              execute_dynamic_total (record s { concurrency_control_strategy = s' }) max_concurrency
                (get_active_runners_count p) planned speed per_runner sampler found owned in
            (r, rw (q, e, execute) k)
      ]
