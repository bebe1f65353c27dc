-- ===== src/Strategy/Clock.antt =====
-- The sampler under the readings of the clock.
use bolt_load.Prelude.{
  ℕ, le→leb, ◌-◌, ◌≤◌, ◌≡◌, refl, inl, inr, Option, none, some, leb, Bool-cases,
}
use bolt_load.Strategy.Sampler.{
  drop_expired, count, no_stats, RunnerOutcomeSampler, OutcomeStats, stats, cleanup_expired,
  has_recent_unretryable,
}

pub stats_total :
    (s : RunnerOutcomeSampler) (now : ℕ)
    → s.time_window ≤ now
    → (s' : RunnerOutcomeSampler) × (st : OutcomeStats) × (stats s now ≡ some (s', st))
unfolding stats cleanup_expired
stats_total s now h =
    let s' : RunnerOutcomeSampler = record s {
      records = drop_expired (now - s.time_window) s.records;
    } in
    (s', count no_stats s'.records, rw (le→leb s.time_window now h, stats) refl)

pub has_recent_unretryable-window :
    (s : RunnerOutcomeSampler) (within now : ℕ)
    → (has_recent_unretryable s within now).0.time_window ≡ s.time_window
unfolding has_recent_unretryable
has_recent_unretryable-window s within now = go s.last_unretryable_at refl
  where
    go :
        (o : Option ℕ)
        → s.last_unretryable_at ≡ o
        → (has_recent_unretryable s within now).0.time_window ≡ s.time_window
    go none e = rw e refl
    go (some last) e =
        rw e (elim (Bool-cases (leb (now - last) within)) [ inl k ↦ rw k refl | inr k ↦ rw k refl ])
