-- ===== src/Strategy/Bounds.antt =====
-- The bounds of the concurrency that the concurrency control asks for.
use bolt_load.Prelude.{
  ℕ, zero, suc, ltb→lt, if_true, if_false, ◌∙◌, add64-eq_of_lt, ◌+◌, ◌-◌, ◌≤◌, ◌<◌, ◌≡◌, refl,
  false, inl, inr, some, List, [], ◌∷◌, All, ltb, leb, max, u64_mod, arith, Bool-cases, ◌&&◌,
}
use bolt_load.Planner.Chunk.{Range}
use bolt_load.Strategy.Float.{Float}
use bolt_load.Strategy.Sampler.{
  RunnerOutcomeSampler, OutcomeStats, has_recent_unretryable, failure_rate,
}
use bolt_load.Strategy.Concurrency.{
  StrategyAction, change_max_concurrency, StrategyState, normal, degraded, recovering, Readings,
  Context, create_tasks, ConcurrencyControlStrategy, later_step, step, handle_immediate_degradation,
  handle_normal_state, handle_degraded_state, handle_recovering_state, handle_state,
  or_create_tasks, lowered, raised, recovery_failure_rate,
}
use bolt_load.Strategy.Clock.{stats_total, has_recent_unretryable-window}

-- Where a state may stand, between the least concurrency and the first one.
abbrev pub IsWithin : (lowest initial : ℕ) → StrategyState → Type 0
IsWithin lowest initial normal = Unit
IsWithin lowest initial (degraded target at) = lowest ≤ target
IsWithin lowest initial (recovering trial at failures) = (lowest ≤ trial) × (trial ≤ initial)

-- A new concurrency is at least the least one, and at most the largest that was ever asked for.
abbrev pub IsAllowed : (lowest initial : ℕ) → Context → StrategyAction → Type 0
IsAllowed lowest initial c (change_max_concurrency n) =
    (lowest ≤ n) × (n ≤ max (max initial c.max_concurrency) (max c.active_runners 1))
IsAllowed lowest initial c _ = Unit

create_tasks-IsAllowed :
    (lowest initial : ℕ) (c : Context) (n : ℕ) (rs : List Range)
    → All (IsAllowed lowest initial c) (create_tasks n rs)
create_tasks-IsAllowed lowest initial c zero rs = tt
create_tasks-IsAllowed lowest initial c (suc n) [] = tt
create_tasks-IsAllowed lowest initial c (suc n) (r ∷ rs) =
    (tt, create_tasks-IsAllowed lowest initial c n rs)

or_create_tasks-IsAllowed :
    (lowest initial : ℕ) (c : Context) (actions : List StrategyAction)
    → All (IsAllowed lowest initial c) actions
    → All (IsAllowed lowest initial c) (or_create_tasks c actions)
or_create_tasks-IsAllowed lowest initial c (a ∷ actions) h = h
or_create_tasks-IsAllowed lowest initial c [] h =
    elim (Bool-cases (ltb c.active_runners c.max_concurrency)) [
      | inl e ↦ rw e (create_tasks-IsAllowed lowest initial c _ c.available_chunks)
      | inr e ↦ rw e tt
    ]

module _ (f : Float) where
  pub record IsValid (s : ConcurrencyControlStrategy f) : Type 0 where
    pub lowest : s.config.min_concurrency ≤ s.initial_max_concurrency
    pub fits : s.initial_max_concurrency + s.config.recovery_step < u64_mod
    pub within : IsWithin s.config.min_concurrency s.initial_max_concurrency s.state

  -- What a step owes: a valid strategy with the same settings, and allowed actions.
  abbrev pub IsSound :
      ConcurrencyControlStrategy f
      → Context
      → ConcurrencyControlStrategy f × List StrategyAction
      → Type 0
  IsSound s c (s', actions) =
      IsWithin s.config.min_concurrency s.initial_max_concurrency s'.state
      × (s'.config ≡ s.config)
      × (s'.initial_max_concurrency ≡ s.initial_max_concurrency)
      × All (IsAllowed s.config.min_concurrency s.initial_max_concurrency c) actions

  immediate-IsSound :
      (s : ConcurrencyControlStrategy f) (c : Context) (now : ℕ)
      → IsValid s
      → IsSound s c (handle_immediate_degradation f s c now)
  immediate-IsSound s c now v =
      (omega arith, refl, refl, ((omega arith, omega (arith, v.lowest)), tt))

  normal-IsSound :
      (s : ConcurrencyControlStrategy f) (c : Context) (st : OutcomeStats) (now : ℕ)
      → IsValid s
      → IsSound s c (handle_normal_state f s c st now)
  normal-IsSound s c st now v = elim (Bool-cases (ltb st.total s.config.min_samples)) [
    | inl e ↦ rw e (v.within, refl, refl, tt)
    | inr e ↦
        rw e
          (elim (Bool-cases (
            f.le s.config.failure_rate_threshold (failure_rate f st)
            && ltb s.config.min_concurrency c.max_concurrency)) [
              | inl k ↦ rw k (omega arith, refl, refl, ((omega arith, omega (arith, v.lowest)), tt))
              | inr k ↦ rw k (v.within, refl, refl, tt)
            ])
  ]

  degraded-IsSound :
      (s : ConcurrencyControlStrategy f) (c : Context) (st : OutcomeStats) (now target at : ℕ)
      → IsValid s
      → s.config.min_concurrency ≤ target
      → IsSound s c (handle_degraded_state f s st now target at)
  degraded-IsSound s c st now target at v w =
      elim (Bool-cases (ltb (now - at) s.config.recovery_delay)) [
        | inl e ↦ rw e (v.within, refl, refl, tt)
        | inr e ↦
            rw e
              (elim (Bool-cases
                (f.lt (failure_rate f st) (f.mul s.config.failure_rate_threshold (f.tenths 5)))) [
                  | inl k ↦ rw k (elim (Bool-cases (ltb target (raised f s target))) [
                    | inl l ↦
                        let higher : target < raised f s target = ltb→lt _ _ l in
                        rw l
                          ((omega arith, omega arith), refl, refl, ((omega arith, omega arith), tt))
                    | inr l ↦ rw l (tt, refl, refl, tt)
                  ])
                  | inr k ↦ rw k (v.within, refl, refl, tt)
                ])
      ]

  recovering-IsSound :
      (s : ConcurrencyControlStrategy f) (c : Context) (st : OutcomeStats)
      (now trial at failures : ℕ)
      → IsValid s
      → s.config.min_concurrency ≤ trial
      → trial ≤ s.initial_max_concurrency
      → IsSound s c (handle_recovering_state f s st now trial at failures)
  recovering-IsSound s c st now trial at failures v w u =
      elim (Bool-cases (f.le s.config.failure_rate_threshold (failure_rate f st))) [
        | inl e ↦ rw e (omega arith, refl, refl, (fall s.config.degradation_step, tt))
        | inr e ↦ rw e (elim (Bool-cases (leb s.config.recovery_observation_period (now - at))) [
          | inr k ↦ rw k (v.within, refl, refl, tt)
          | inl k ↦
              rw k
                (elim (Bool-cases
                  (f.lt (recovery_failure_rate f st failures) s.config.failure_rate_threshold)) [
                    | inr l ↦ rw l (omega arith, refl, refl, (fall s.config.recovery_step, tt))
                    | inl l ↦ rw l (elim (Bool-cases (ltb trial s.initial_max_concurrency)) [
                      | inl m ↦ rw m ((raise, omega arith), refl, refl, ((raise, omega arith), tt))
                      | inr m ↦ rw m (tt, refl, refl, tt)
                    ])
                  ])
        ])
      ]
    where
      fall :
          (step : ℕ)
          → IsAllowed s.config.min_concurrency s.initial_max_concurrency c
              (change_max_concurrency (lowered f s trial step))
      fall step = (omega arith, omega (arith, v.lowest))

      raise : s.config.min_concurrency ≤ raised f s trial
      raise =
          rw (add64-eq_of_lt trial s.config.recovery_step (omega (arith, v.fits)))
            (omega (arith, v.lowest))

  state-IsSound :
      (s : ConcurrencyControlStrategy f) (c : Context) (st : OutcomeStats) (now : ℕ)
      (state : StrategyState)
      → IsValid s
      → IsWithin s.config.min_concurrency s.initial_max_concurrency state
      → IsSound s c (handle_state f s c st now state)
  state-IsSound s c st now normal v w = normal-IsSound s c st now v
  state-IsSound s c st now (degraded target at) v w = degraded-IsSound s c st now target at v w
  state-IsSound s c st now (recovering trial at failures) v w =
      recovering-IsSound s c st now trial at failures v w.0 w.1

  -- A valid strategy that keeps its settings is valid in a state within the bounds.
  IsSound-IsValid :
      (s s' : ConcurrencyControlStrategy f)
      → IsValid s
      → IsWithin s.config.min_concurrency s.initial_max_concurrency s'.state
      → s'.config ≡ s.config
      → s'.initial_max_concurrency ≡ s.initial_max_concurrency
      → IsValid s'
  IsSound-IsValid s s' v w e k = record {
    lowest = rw (e, k) v.lowest;
    fits = rw (e, k) v.fits;
    within = rw (e, k) w;
  }

  later_step-IsAllowed :
      (s : ConcurrencyControlStrategy f) (c : Context) (t : Readings)
      → IsValid s
      → c.sampler.time_window ≤ t.sampled
      → (s' : ConcurrencyControlStrategy f) × (sampler : RunnerOutcomeSampler) × (actions : List
          StrategyAction)
        × (later_step f s c t ≡ some (s', sampler, actions))
        × IsValid s'
        × All (IsAllowed s.config.min_concurrency s.initial_max_concurrency c) actions
  unfolding later_step
  later_step-IsAllowed s c t v h =
      let recent =
        has_recent_unretryable c.sampler s.config.unretryable_detection_window t.recent in
      elim (Bool-cases recent.1) [
        | inl k ↦
            let next = handle_immediate_degradation f s c t.now in
            let (w, _, _, a) = immediate-IsSound s c t.now v in
            (next.0, recent.0, next.1, rw k refl, IsSound-IsValid s next.0 v w refl refl, a)
        | inr k ↦
            let (sampler, st, q) = stats_total recent.0 t.sampled (rw window h) in
            let next = handle_state f s c st t.now s.state in
            let (w, same, first, a) = state-IsSound s c st t.now s.state v v.within in
            (
              next.0,
              sampler,
              or_create_tasks c next.1,
              rw (k, q) refl,
              IsSound-IsValid s next.0 v w same first,
              or_create_tasks-IsAllowed _ _ c next.1 a,
            )
      ]
    where
      window :
          (has_recent_unretryable c.sampler s.config.unretryable_detection_window
            t.recent).0.time_window
          ≡ c.sampler.time_window
      window =
          has_recent_unretryable-window c.sampler s.config.unretryable_detection_window t.recent

  -- A step of a valid concurrency control does not panic, if the clock has run for longer than the
  -- sampler's window. It leaves a valid concurrency control, and a new concurrency that it asks for is
  -- at least the configured minimum, and at most the largest of the first concurrency, the
  -- present one, the number of active runners, and one.
  pub step-IsAllowed :
      (s : ConcurrencyControlStrategy f) (c : Context) (t : Readings)
      → IsValid s
      → c.sampler.time_window ≤ t.sampled
      → (s' : ConcurrencyControlStrategy f) × (sampler : RunnerOutcomeSampler) × (actions : List
          StrategyAction)
        × (step f s c t ≡ some (s', sampler, actions))
        × IsValid s'
        × All (IsAllowed s.config.min_concurrency s.initial_max_concurrency c) actions
  unfolding step
  step-IsAllowed s c t v h = elim (Bool-cases s.first_execute) [
    | inl e ↦ (
      record s { first_execute = false },
      c.sampler,
      create_tasks c.max_concurrency c.available_chunks,
      if_true s.first_execute _ _ e,
      record { lowest = v.lowest; fits = v.fits; within = v.within },
      create_tasks-IsAllowed _ _ c c.max_concurrency c.available_chunks,
    )
    | inr e ↦
        let (s', sampler, actions, q, v', a) = later_step-IsAllowed s c t v h in
        (s', sampler, actions, if_false s.first_execute _ _ e ∙ q, v', a)
  ]
