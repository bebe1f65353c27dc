-- ===== src/Writer/Failed.antt =====
-- Which completions tell `PendingWriter` of an error.
use bolt_load.Prelude.{
  ℕ, ◌+◌, ◌≡◌, refl, ap, inl, inr, Bool, true, false, not, ◌||◌, any, ltb, ok, err, Option, none,
  some, List, [], ◌∷◌, ◌++◌, Result, arith, if◌then◌else◌, Bool-cases,
}
use bolt_load.Writer.State.{
  PendingWrite, WriteCompletion, WriteError, PendingWriter, Host, is_failed, try_flush_pending,
  flush_pending, is_full,
}
use bolt_load.Writer.Valid.{settled, acked, dispatch_write-Dispatches}

-- How many of the completions report a failure.
abbrev pub count_failed : List WriteCompletion → ℕ
count_failed [] = 0
count_failed (c ∷ cs) = (elim c.result [ ok _ ↦ 0 | err _ ↦ 1 ]) + count_failed cs

-- Whether an error was seen before, or is in the completions.
abbrev pub has_failed : Bool → List WriteCompletion → Bool
has_failed seen cs = seen || ltb 0 (count_failed cs)

pub any-count_failed : (cs : List WriteCompletion) → any is_failed cs ≡ ltb 0 (count_failed cs)
any-count_failed [] = refl
any-count_failed (c ∷ cs) = by_result c.result (any-count_failed cs)
  where
    by_result :
        (x : Result (Unit {0}) WriteError)
        → any is_failed cs ≡ ltb 0 (count_failed cs)
        → ((elim x [ ok _ ↦ false | err _ ↦ true ]) || any is_failed cs)
          ≡ ltb 0 ((elim x [ ok _ ↦ 0 | err _ ↦ 1 ]) + count_failed cs)
    by_result (ok done) h = ground (arith, h)
    by_result (err e) h = ground arith

count_failed-append :
    (cs ds : List WriteCompletion) → count_failed (cs ++ ds) ≡ count_failed cs + count_failed ds
count_failed-append [] ds = omega arith
count_failed-append (c ∷ cs) ds = omega (arith, count_failed-append cs ds)

pub has_failed-append :
    (seen : Bool) (cs ds : List WriteCompletion)
    → has_failed seen (cs ++ ds) ≡ (has_failed seen cs || any is_failed ds)
has_failed-append seen cs ds = ground (arith, any-count_failed ds, count_failed-append cs ds)

-- Only settling changes whether an error was seen.
try_flush_pending_error :
    (w : PendingWriter) (h : Host)
    → w.channel ≡ []
    → (try_flush_pending w h).saw_error ≡ w.saw_error
unfolding try_flush_pending
try_flush_pending_error w h e = go w.pending_write
  where
    go :
        (o : Option PendingWrite)
        → (if not (is_full w) then flush_pending w o h else w).saw_error ≡ w.saw_error
    go none = elim (Bool-cases (is_full w)) [ inl f ↦ rw f refl | inr f ↦ rw f refl ]
    go (some c) = elim (Bool-cases (is_full w)) [
      | inl f ↦ rw f refl
      | inr f ↦
          rw f
            (elim (dispatch_write-Dispatches (record w { pending_write = none }) c h
              (rw e (omega arith))) [
                | inl q ↦ ap (λ (x : PendingWriter). x.saw_error) q
                | inr (x, q) ↦ ap (λ (y : PendingWriter). y.saw_error) q
              ])
    ]

pub settled_error :
    (w : PendingWriter) (h : Host)
    → (settled w h).saw_error ≡ (w.saw_error || any is_failed w.channel)
settled_error w h = either (acked w).saw_error
  where
    either :
        (failed : Bool)
        → (if not failed then try_flush_pending (acked w) h else acked w).saw_error
          ≡ (acked w).saw_error
    either true = refl
    either false = try_flush_pending_error (acked w) h refl
