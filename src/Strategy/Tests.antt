-- ===== src/Strategy/Tests.antt =====
-- The strategies' theorems at concrete inputs, with whole numbers of tenths for `f64`.
use bolt_load.Prelude.{
  ℕ, ◌-◌, ◌+◌, ◌*◌, ◌/◌, ◌≡◌, refl, true, false, none, some, List, [], ◌∷◌, ltb, leb, arith, All,
  ◌++◌, filter, length, min,
}
use bolt_load.Planner.Chunk.{range}
use bolt_load.Planner.State
use bolt_load.Strategy.Float.{Float}
use bolt_load.Strategy.Sampler.{
  OutcomeRecord, completed, connect_failed, retryable, unretryable, RunnerOutcomeSampler,
  OutcomeStats, record_outcome, stats,
}
use bolt_load.Strategy.Concurrency.{
  StrategyAction, degraded, Context, Readings, ConcurrencyControlStrategy, default_config, step,
}
use bolt_load.Strategy.Control
use bolt_load.Strategy.Control.{Runners, Executed, execute}
use bolt_load.Strategy.Bounds
use bolt_load.Strategy.Bounds.{IsAllowed, step-IsAllowed}
use bolt_load.Strategy.Total.{execute_total}
use bolt_load.Adapter.Error.{timeout, unretryable, retry_limit_exceeded}
use bolt_load.Strategy.Policy
use bolt_load.Strategy.Policy.{AttemptFailure, on_failure, check}
use bolt_load.Strategy.Streak.{
  Report, progress, write_ok, failed, after, last_progress, on_failure_iff, streak,
}
use bolt_load.Strategy.Window
use bolt_load.Strategy.Counts.{IsSum, is_completed}
use bolt_load.Strategy.Window.{record_outcome_lem, stats_lem, is_recent}

-- `Float` with whole numbers of tenths.
abbrev tenths : Float
tenths = record {
  Carrier = ℕ;
  of_nat = λ n. n * 10;
  tenths = λ n. n;
  add = λ a b. a + b;
  sub = λ a b. a - b;
  mul = λ a b. (a * b) / 10;
  div = λ a b. (a * 10) / b;
  abs = λ a. a;
  lt = ltb;
  le = leb;
  to_nat = λ a. a / 10;
}

-- Two failures and a completion within the window, after one that has left it.
abbrev sampler : RunnerOutcomeSampler
sampler = record {
  records =
      record { timestamp = 1; outcome = completed }
      ∷ record { timestamp = 50; outcome = connect_failed retryable }
      ∷ record { timestamp = 60; outcome = completed }
      ∷ record { timestamp = 70; outcome = connect_failed retryable }
      ∷ [];
  time_window = 60;
  max_records = 4;
  last_unretryable_at = none;
}

sampler-IsValid : Window.IsValid 70 sampler
sampler-IsValid = record { ordered = ground arith; bounded = omega arith }

stats_example :
    (s' : RunnerOutcomeSampler) × (st : OutcomeStats) × (stats sampler 100 ≡ some (s', st))
    × (s'.records ≡ filter (is_recent 40) sampler.records)
    × IsSum st
    × (st.total ≡ length s'.records)
    × (st.completed ≡ length (filter is_completed s'.records))
stats_example = stats_lem sampler 70 100 sampler-IsValid (omega arith)

record_outcome_example :
    (s' : RunnerOutcomeSampler) × (record_outcome sampler (connect_failed unretryable) 100
      ≡ some s')
    × Window.IsValid 100 s'
    × ((old : List OutcomeRecord) × (old ++ s'.records
          ≡ Window.kept_with sampler (connect_failed unretryable) 100)
        × (length s'.records
            ≡ min 4 (length (Window.kept_with sampler (connect_failed unretryable) 100))))
    × (s'.last_unretryable_at ≡ some 100)
record_outcome_example =
    record_outcome_lem sampler (connect_failed unretryable) 70 100 sampler-IsValid (omega arith)
      (omega arith)

abbrev control : ConcurrencyControlStrategy tenths
control = record {
  config = default_config tenths;
  state = degraded 2 0;
  initial_max_concurrency = 4;
  first_execute = false;
}

abbrev context : Context
context = record {
  max_concurrency = 2;
  active_runners = 1;
  sampler = sampler;
  available_chunks = range 0 10 ∷ [];
}

abbrev readings : Readings
readings = record { now = 40000; recent = 40000; sampled = 40000 }

control-IsValid : Bounds.IsValid tenths control
control-IsValid = record { lowest = omega arith; fits = omega arith; within = omega arith }

-- The clock is past the window, so that the sampler forgets all and the concurrency is raised.
step-IsAllowed_example :
    (s' : ConcurrencyControlStrategy tenths) × (r : RunnerOutcomeSampler) × (actions : List
      StrategyAction)
    × (step tenths control context readings ≡ some (s', r, actions))
    × Bounds.IsValid tenths s'
    × All (IsAllowed 1 4 context) actions
step-IsAllowed_example =
    step-IsAllowed tenths control context readings control-IsValid (omega arith)

abbrev runners : Runners
runners = record { chunk_planner = State.new 100; runner_outcome_sampler = sampler }

execute_total_example :
    (r : Executed tenths) × (execute tenths (Control.new tenths 4) 4 20 10 runners readings
      ≡ some r)
execute_total_example =
    execute_total tenths (Control.new tenths 4) 4 20 10 runners readings (omega arith)

-- A retryable failure, and the reports of two of them after a write, the newest first.
abbrev failure : AttemptFailure
failure = record { runner_id = 1; error = timeout; retryable = true }

abbrev reports : List Report
reports = failed failure 0 ∷ progress 5 ∷ failed failure 0 ∷ write_ok 7 ∷ failed failure 0 ∷ []

streak-reports : streak reports ≡ 2
unfolding streak
streak-reports = refl

on_failure_example :
    ((on_failure (after (Policy.new 3 100 0) reports) failure 1).1
      ≡ some (retry_limit_exceeded 3 timeout))
    × (check (after (Policy.new 3 100 0) reports) 104 ≡ none)
unfolding streak last_progress
on_failure_example = on_failure_iff 3 100 0 reports failure 1 104
