-- ===== src/Strategy/Window.antt =====
-- The sliding window of the outcome sampler.
use bolt_load.Prelude.{
  ℕ, ap, suc, ◌-◌, ◌≤◌, ◌≡◌, refl, Bool, inl, inr, some, List, [], ◌∷◌, ◌++◌, ltb, leb, arith,
  filter, length, Bool-cases, le→leb, min, if◌then◌else◌,
}
use bolt_load.Strategy.Sampler.{
  RunnerOutcome, OutcomeRecord, OutcomeStats, RunnerOutcomeSampler, drop_expired, cleanup_expired,
  pop_excess, record_outcome, count, no_stats, stats, is_unretryable,
}
use bolt_load.Strategy.Counts.{is_completed, IsSum, count_lem}

-- The records are in the order of their times, which lie between two bounds.
abbrev pub IsOrdered : (low high : ℕ) → List OutcomeRecord → Type 0
IsOrdered low high [] = low ≤ high
IsOrdered low high (r ∷ rs) = (low ≤ r.timestamp) × IsOrdered r.timestamp high rs

-- A sampler as the calls up to the instant `latest` leave it.
pub record IsValid (latest : ℕ) (s : RunnerOutcomeSampler) : Type 0 where
  pub ordered : IsOrdered 0 latest s.records
  pub bounded : length s.records ≤ s.max_records

IsOrdered-bounds : (low high : ℕ) (rs : List OutcomeRecord) → IsOrdered low high rs → low ≤ high
IsOrdered-bounds low high [] h = h
IsOrdered-bounds low high (r ∷ rs) h = omega (arith, h.0, IsOrdered-bounds r.timestamp high rs h.1)

IsOrdered-low :
    (low low' high : ℕ) (rs : List OutcomeRecord)
    → low' ≤ low
    → IsOrdered low high rs
    → IsOrdered low' high rs
IsOrdered-low low low' high [] l h = omega arith
IsOrdered-low low low' high (r ∷ rs) l h = (omega (arith, h.0), h.1)

IsOrdered-high :
    (low high high' : ℕ) (rs : List OutcomeRecord)
    → high ≤ high'
    → IsOrdered low high rs
    → IsOrdered low high' rs
IsOrdered-high low high high' [] l h = omega arith
IsOrdered-high low high high' (r ∷ rs) l h = (h.0, IsOrdered-high r.timestamp high high' rs l h.1)

IsOrdered-append :
    (low high : ℕ) (rs : List OutcomeRecord) (r : OutcomeRecord)
    → IsOrdered low high rs
    → high ≤ r.timestamp
    → IsOrdered low r.timestamp (rs ++ r ∷ [])
IsOrdered-append low high [] r h l = (omega arith, omega arith)
IsOrdered-append low high (x ∷ rs) r h l = (h.0, IsOrdered-append x.timestamp high rs r h.1 l)

-- What stays in the window.
abbrev pub is_recent : ℕ → OutcomeRecord → Bool
is_recent cutoff r = leb cutoff r.timestamp

filter-recent :
    (cutoff low high : ℕ) (rs : List OutcomeRecord)
    → cutoff ≤ low
    → IsOrdered low high rs
    → filter (is_recent cutoff) rs ≡ rs
filter-recent cutoff low high [] l h = refl
filter-recent cutoff low high (r ∷ rs) l h =
    rw
      (
        le→leb cutoff r.timestamp (omega (arith, h.0)),
        filter-recent cutoff r.timestamp high rs (omega (arith, h.0)) h.1,
      )
      refl

-- On records in order, dropping from the front until one is recent drops all that are not.
drop_expired_lem :
    (cutoff low high : ℕ) (rs : List OutcomeRecord)
    → IsOrdered low high rs
    → drop_expired cutoff rs ≡ filter (is_recent cutoff) rs
unfolding drop_expired
drop_expired_lem cutoff low high [] h = refl
drop_expired_lem cutoff low high (r ∷ rs) h = elim (Bool-cases (ltb r.timestamp cutoff)) [
  | inl e ↦ ground (arith, drop_expired_lem cutoff r.timestamp high rs h.1)
  | inr e ↦ ground (arith, filter-recent cutoff r.timestamp high rs, h.1)
]

filter-IsOrdered :
    (cutoff low high : ℕ) (rs : List OutcomeRecord)
    → IsOrdered low high rs
    → IsOrdered low high (filter (is_recent cutoff) rs)
filter-IsOrdered cutoff low high [] h = h
filter-IsOrdered cutoff low high (r ∷ rs) h = elim (Bool-cases (leb cutoff r.timestamp)) [
  | inl e ↦ rw e (h.0, filter-IsOrdered cutoff r.timestamp high rs h.1)
  | inr e ↦ rw e (
      IsOrdered-low r.timestamp low high (filter (is_recent cutoff) rs) h.0
        (filter-IsOrdered cutoff r.timestamp high rs h.1))
]

pop_excess-IsOrdered :
    (most low high : ℕ) (rs : List OutcomeRecord)
    → IsOrdered low high rs
    → IsOrdered low high (pop_excess most rs)
unfolding pop_excess
pop_excess-IsOrdered most low high [] h = h
pop_excess-IsOrdered most low high (r ∷ rs) h = elim (Bool-cases (ltb most (suc (length rs)))) [
  | inl e ↦ rw e (
      IsOrdered-low r.timestamp low high (pop_excess most rs) h.0
        (pop_excess-IsOrdered most r.timestamp high rs h.1))
  | inr e ↦ rw e h
]

length-pop_excess : (most : ℕ) (rs : List OutcomeRecord) → length (pop_excess most rs) ≤ most
unfolding pop_excess
length-pop_excess most [] = omega arith
length-pop_excess most (r ∷ rs) = ground (arith, length-pop_excess most rs)

-- The oldest records are given up, and no more of them than exceed the maximum.
pop_excess_lem :
    (most : ℕ) (rs : List OutcomeRecord)
    → (old : List OutcomeRecord) × (old ++ pop_excess most rs ≡ rs)
      × (length (pop_excess most rs) ≡ min most (length rs))
unfolding pop_excess
pop_excess_lem most [] = ([], refl, ground arith)
pop_excess_lem most (r ∷ rs) = elim (Bool-cases (ltb most (suc (length rs)))) [
  | inl e ↦
      let (old, joined, count) = pop_excess_lem most rs in
      rw e (r ∷ old, ap (λ (x : List OutcomeRecord). r ∷ x) joined, ground (arith, count))
  | inr e ↦ rw e ([], refl, ground arith)
]

-- The records that are within the window stay.
cleanup_expired_lem :
    (s : RunnerOutcomeSampler) (latest now : ℕ)
    → IsOrdered 0 latest s.records
    → s.time_window ≤ now
    → cleanup_expired s now
      ≡ some (record s { records = filter (is_recent (now - s.time_window)) s.records })
unfolding cleanup_expired
cleanup_expired_lem s latest now v h =
    let dropped = drop_expired_lem (now - s.time_window) 0 latest s.records v in
    rw (le→leb s.time_window now h, cleanup_expired)
      (ap (λ rs. some (record s { records = rs })) dropped)

-- The records within the window, and then the new one.
abbrev pub kept_with : RunnerOutcomeSampler → RunnerOutcome → ℕ → List OutcomeRecord
kept_with s o now =
    filter (is_recent (now - s.time_window)) s.records
    ++ record { timestamp = now; outcome = o } ∷ []

-- Recording an outcome keeps a sampler valid, if the clock does not run backwards and has run for
-- longer than the window. Of the records that are within the window and then the new one, the new
-- sampler has the last ones, as many as there are or as the maximum allows; and it has the instant of
-- the last unretryable outcome.
pub record_outcome_lem :
    (s : RunnerOutcomeSampler) (o : RunnerOutcome) (latest now : ℕ)
    → IsValid latest s
    → latest ≤ now
    → s.time_window ≤ now
    → (s' : RunnerOutcomeSampler) × (record_outcome s o now ≡ some s')
      × IsValid now s'
      × ((old : List OutcomeRecord) × (old ++ s'.records ≡ kept_with s o now)
          × (length s'.records ≡ min s.max_records (length (kept_with s o now))))
      × (s'.last_unretryable_at ≡ (if is_unretryable o then some now else s.last_unretryable_at))
unfolding record_outcome
record_outcome_lem s o latest now v l h =
    let kept = filter (is_recent (now - s.time_window)) s.records in
    let r : OutcomeRecord = record { timestamp = now; outcome = o } in
    let s' : RunnerOutcomeSampler = record s {
      records = pop_excess s.max_records (kept ++ r ∷ []);
      last_unretryable_at = if is_unretryable o then some now else s.last_unretryable_at;
    } in
    let ordered : IsOrdered 0 now (kept ++ r ∷ []) =
      IsOrdered-append 0 latest kept r
        (filter-IsOrdered (now - s.time_window) 0 latest s.records v.ordered) l in
    (
      s',
      rw (cleanup_expired_lem s latest now v.ordered h, record_outcome) refl,
      record {
        ordered = pop_excess-IsOrdered s.max_records 0 now (kept ++ r ∷ []) ordered;
        bounded = length-pop_excess s.max_records (kept ++ r ∷ []);
      },
      pop_excess_lem s.max_records (kept ++ r ∷ []),
      refl,
    )

-- On a valid sampler, if the clock has run for longer than the window, `stats` counts exactly the
-- records that are within the window, and the completed ones among them; the counters add up to
-- the total.
pub stats_lem :
    (s : RunnerOutcomeSampler) (latest now : ℕ)
    → IsValid latest s
    → s.time_window ≤ now
    → (s' : RunnerOutcomeSampler) × (st : OutcomeStats) × (stats s now ≡ some (s', st))
      × (s'.records ≡ filter (is_recent (now - s.time_window)) s.records)
      × IsSum st
      × (st.total ≡ length s'.records)
      × (st.completed ≡ length (filter is_completed s'.records))
unfolding stats
stats_lem s latest now v h =
    let kept = filter (is_recent (now - s.time_window)) s.records in
    let (sum, total, done) = count_lem no_stats kept (omega arith) in
    (
      record s { records = kept },
      count no_stats kept,
      rw (cleanup_expired_lem s latest now v.ordered h, stats) refl,
      refl,
      sum,
      omega (arith, total),
      omega (arith, done),
    )
