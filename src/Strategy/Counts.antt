-- ===== src/Strategy/Counts.antt =====
-- What `stats` counts.
use bolt_load.Prelude.{
  suc, ◌+◌, ◌≡◌, refl, Bool, true, false, inl, inr, List, [], ◌∷◌, arith, filter, length,
  Bool-cases, if◌then◌else◌,
}
use bolt_load.Strategy.Sampler.{
  RunnerOutcome, connect_failed, stream_closed, retryable, unretryable, OutcomeRecord, OutcomeStats,
  count, count_one,
}

abbrev pub is_completed : OutcomeRecord → Bool
is_completed r = elim r.outcome [
  | RunnerOutcome.completed ↦ true
  | connect_failed k ↦ false
  | stream_closed k ↦ false
]

-- The five counters add up to the total.
abbrev pub IsSum : OutcomeStats → Type 0
IsSum s =
    s.completed + s.connect_failed_retryable + s.connect_failed_unretryable
      + s.stream_closed_retryable + s.stream_closed_unretryable
    ≡ s.total

count_one_lem :
    (o : RunnerOutcome) (s : OutcomeStats)
    → IsSum s
    → IsSum (count_one o s) × ((count_one o s).total ≡ suc s.total)
count_one_lem RunnerOutcome.completed s h = (omega arith, refl)
count_one_lem (connect_failed retryable) s h = (omega arith, refl)
count_one_lem (connect_failed unretryable) s h = (omega arith, refl)
count_one_lem (stream_closed retryable) s h = (omega arith, refl)
count_one_lem (stream_closed unretryable) s h = (omega arith, refl)

count_one-completed :
    (r : OutcomeRecord) (s : OutcomeStats)
    → (count_one r.outcome s).completed ≡ (if is_completed r then suc s.completed else s.completed)
count_one-completed r s = go r.outcome r refl
  where
    go :
        (o : RunnerOutcome) (x : OutcomeRecord)
        → x.outcome ≡ o
        → (count_one x.outcome s).completed
          ≡ (if is_completed x then suc s.completed else s.completed)
    go RunnerOutcome.completed x e = rw e refl
    go (connect_failed retryable) x e = rw e refl
    go (connect_failed unretryable) x e = rw e refl
    go (stream_closed retryable) x e = rw e refl
    go (stream_closed unretryable) x e = rw e refl

pub count_lem :
    (s : OutcomeStats) (rs : List OutcomeRecord)
    → IsSum s
    → IsSum (count s rs)
      × ((count s rs).total ≡ s.total + length rs)
      × ((count s rs).completed ≡ s.completed + length (filter is_completed rs))
unfolding count
count_lem s [] h = (h, omega arith, omega arith)
count_lem s (r ∷ rs) h =
    let (sum, one) = count_one_lem r.outcome s h in
    let (a, b, c) = count_lem (count_one r.outcome s) rs sum in
    (
      a,
      omega (arith, b, one),
      elim (Bool-cases (is_completed r)) [
        | inl e ↦ ground (arith, c, count_one-completed r s)
        | inr e ↦ ground (arith, c, count_one-completed r s)
      ],
    )
