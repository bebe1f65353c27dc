-- ===== src/Strategy/Sampler.antt =====
-- strategy/runner_outcome_sampler.rs: the outcomes of the runners in a sliding window. An `Instant` is
-- the time since the earliest one, in any unit; a call takes the reading of the clock that it makes.
use bolt_load.Prelude.{
  ℕ, suc, ◌-◌, Bool, true, false, Option, none, some, List, [], ◌∷◌, ◌++◌, ltb, leb, ◌==◌,
  if◌then◌else◌, length,
}
use bolt_load.Strategy.Float.{Float}

pub data FailureKind : Type 0 where
  retryable unretryable : FailureKind

pub data RunnerOutcome : Type 0 where
  completed : RunnerOutcome
  connect_failed stream_closed : FailureKind → RunnerOutcome

abbrev pub is_unretryable : RunnerOutcome → Bool
is_unretryable RunnerOutcome.completed = false
is_unretryable (connect_failed retryable) = false
is_unretryable (connect_failed unretryable) = true
is_unretryable (stream_closed retryable) = false
is_unretryable (stream_closed unretryable) = true

pub record OutcomeRecord : Type 0 where
  pub timestamp : ℕ
  pub outcome : RunnerOutcome

pub record OutcomeStats : Type 0 where
  pub total : ℕ
  pub completed : ℕ
  pub connect_failed_retryable : ℕ
  pub connect_failed_unretryable : ℕ
  pub stream_closed_retryable : ℕ
  pub stream_closed_unretryable : ℕ

-- `total` counts every outcome, so it is at least `completed`.
abbrev pub total_failures : OutcomeStats → ℕ
total_failures s = s.total - s.completed

abbrev pub failure_rate : (f : Float) → OutcomeStats → f.Carrier
failure_rate f s =
    if s.total == 0 then f.of_nat 0 else f.div (f.of_nat (total_failures s)) (f.of_nat s.total)

pub record RunnerOutcomeSampler : Type 0 where
  -- Oldest first.
  pub records : List OutcomeRecord
  pub time_window : ℕ
  pub max_records : ℕ
  pub last_unretryable_at : Option ℕ

abbrev pub new : ℕ → ℕ → RunnerOutcomeSampler
new time_window max_records = record {
  records = [];
  time_window = time_window;
  max_records = max_records;
  last_unretryable_at = none;
}

-- The loop of `cleanup_expired`.
unfoldable pub drop_expired : ℕ → List OutcomeRecord → List OutcomeRecord
drop_expired cutoff [] = []
drop_expired cutoff (r ∷ rs) =
    let rest = drop_expired cutoff rs in if ltb r.timestamp cutoff then rest else r ∷ rs

-- `none` is the panic of `expect`: the window reaches back past the earliest instant.
unfoldable pub cleanup_expired : RunnerOutcomeSampler → ℕ → Option RunnerOutcomeSampler
unfolding drop_expired
cleanup_expired s now =
    if leb s.time_window now
    then some (record s { records = drop_expired (now - s.time_window) s.records })
    else none

-- `while self.records.len() > self.max_records`.
unfoldable pub pop_excess : ℕ → List OutcomeRecord → List OutcomeRecord
pop_excess most [] = []
pop_excess most (r ∷ rs) =
    let rest = pop_excess most rs in if ltb most (suc (length rs)) then rest else r ∷ rs

unfoldable pub record_outcome :
    RunnerOutcomeSampler → RunnerOutcome → ℕ → Option RunnerOutcomeSampler
unfolding cleanup_expired pop_excess
record_outcome s outcome now = elim (cleanup_expired s now) [
  | none ↦ none
  | some s' ↦ some (record s' {
    records =
        pop_excess s'.max_records
          (s'.records ++ record { timestamp = now; outcome = outcome } ∷ []);
    last_unretryable_at = if is_unretryable outcome then some now else s'.last_unretryable_at;
  })
]

abbrev pub count_one : RunnerOutcome → OutcomeStats → OutcomeStats
count_one RunnerOutcome.completed s = record s { total = suc s.total; completed = suc s.completed }
count_one (connect_failed retryable) s = record s {
  total = suc s.total;
  connect_failed_retryable = suc s.connect_failed_retryable;
}
count_one (connect_failed unretryable) s = record s {
  total = suc s.total;
  connect_failed_unretryable = suc s.connect_failed_unretryable;
}
count_one (stream_closed retryable) s = record s {
  total = suc s.total;
  stream_closed_retryable = suc s.stream_closed_retryable;
}
count_one (stream_closed unretryable) s = record s {
  total = suc s.total;
  stream_closed_unretryable = suc s.stream_closed_unretryable;
}

abbrev pub no_stats : OutcomeStats
no_stats = record {
  total = 0;
  completed = 0;
  connect_failed_retryable = 0;
  connect_failed_unretryable = 0;
  stream_closed_retryable = 0;
  stream_closed_unretryable = 0;
}

-- The loop of `stats`.
unfoldable pub count : OutcomeStats → List OutcomeRecord → OutcomeStats
count s [] = s
count s (r ∷ rs) = count (count_one r.outcome s) rs

unfoldable pub stats : RunnerOutcomeSampler → ℕ → Option (RunnerOutcomeSampler × OutcomeStats)
unfolding cleanup_expired count
stats s now = elim (cleanup_expired s now) [
  | none ↦ none
  | some s' ↦ some (s', count no_stats s'.records)
]

-- `duration_since` is zero for a later instant.
unfoldable pub has_recent_unretryable : RunnerOutcomeSampler → ℕ → ℕ → RunnerOutcomeSampler × Bool
has_recent_unretryable s within now = elim s.last_unretryable_at [
  | none ↦ (s, false)
  | some last ↦
      if leb (now - last) within
      then (record s { last_unretryable_at = none }, true)
      else (s, false)
]
