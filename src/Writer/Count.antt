-- ===== src/Writer/Count.antt =====
-- How often a range stands among the writes and completions that a `PendingWriter` holds, and what
-- each operation does to that count.
use bolt_load.Prelude.{
  ℕ, zero, suc, ◌+◌, ◌≡◌, refl, inl, inr, Bool, true, false, not, ◌&&◌, Option, none, some, List,
  [], ◌∷◌, ◌++◌, Result, arith, ◌==◌, if◌then◌else◌, Bool-cases,
}
use bolt_load.Planner.Chunk.{Range}
use bolt_load.Writer.State.{
  PendingWrite, WriteCompletion, WriteError, PendingWriter, Host, write_range, complete_at, take_at,
  try_flush_pending, is_full, has_pending_write, flush_pending, failed_write,
}
use bolt_load.Writer.Valid.{
  IsValid, Dispatches, dispatch_write-Dispatches, complete_at_lem, settled, acked,
}
use bolt_load.Writer.Trace.{accept}

-- How often a range stands in a list.
abbrev hit : Range → Range → ℕ
hit r s = if r.start == s.start && r.end == s.end then 1 else 0

abbrev pub count : Range → List Range → ℕ
count r [] = 0
count r (s ∷ rs) = hit r s + count r rs

abbrev pub count_writes : Range → List PendingWrite → ℕ
count_writes r [] = 0
count_writes r (c ∷ cs) = hit r c.range + count_writes r cs

abbrev pub count_reports : Range → List WriteCompletion → ℕ
count_reports r [] = 0
count_reports r (c ∷ cs) = hit r c.range + count_reports r cs

abbrev pub count_pending : Range → Option PendingWrite → ℕ
count_pending r none = 0
count_pending r (some c) = hit r c.range

-- The writes that a writer has accepted and not yet returned a completion of.
abbrev pub unreported : Range → PendingWriter → ℕ
unreported r w =
    count_reports r w.channel + count_writes r w.outstanding + count_pending r w.pending_write

count_writes-append :
    (r : Range) (xs ys : List PendingWrite)
    → count_writes r (xs ++ ys) ≡ count_writes r xs + count_writes r ys
count_writes-append r [] ys = omega arith
count_writes-append r (x ∷ xs) ys = omega (arith, count_writes-append r xs ys)

pub count_reports-append :
    (r : Range) (xs ys : List WriteCompletion)
    → count_reports r (xs ++ ys) ≡ count_reports r xs + count_reports r ys
count_reports-append r [] ys = omega arith
count_reports-append r (x ∷ xs) ys = omega (arith, count_reports-append r xs ys)

Dispatches-unreported :
    (r : Range) (w q : PendingWriter) (c : PendingWrite)
    → Dispatches w c q
    → unreported r q ≡ unreported r w + hit r c.range
Dispatches-unreported r w q c (inl e) =
    rw e (omega (arith, count_writes-append r w.outstanding (c ∷ [])))
Dispatches-unreported r w q c (inr (x, e)) =
    rw e (omega (arith, count_reports-append r w.channel (failed_write c x ∷ [])))

-- An accepted write is one more, a rejected one changes nothing.
pub write_range-unreported :
    (r : Range) (w : PendingWriter) (c : PendingWrite) (h : Host)
    → IsValid w
    → unreported r (write_range w c h).0
      ≡ unreported r w
        + count r
            (accept
              (record { writer = w; accepted = []; reported = [] })
              c
              (write_range w c h)).accepted
unfolding write_range
write_range-unreported r w c h v = elim (Bool-cases (is_full w)) [
  | inr f ↦
      rw (write_range, f)
        (omega (
          arith,
          Dispatches-unreported r w _ c
              (dispatch_write-Dispatches w c h (omega (arith, v.accounted, v.bounded))),
        ))
  | inl f ↦
      rw (write_range, f)
        (elim (Bool-cases (has_pending_write w)) [
          | inl p ↦ rw p (omega arith)
          | inr p ↦ rw p (ground arith)
        ])
]

-- A buffered write that is dispatched stays accounted for.
try_flush_pending-unreported :
    (r : Range) (w : PendingWriter) (h : Host)
    → w.channel ≡ []
    → unreported r (try_flush_pending w h) ≡ unreported r w
unfolding try_flush_pending
try_flush_pending-unreported r w h e = go w.pending_write refl
  where
    go :
        (o : Option PendingWrite)
        → w.pending_write ≡ o
        → unreported r (if not (is_full w) then flush_pending w o h else w) ≡ unreported r w
    go none q = ground arith
    go (some c) q = elim (Bool-cases (is_full w)) [
      | inl f ↦ rw f refl
      | inr f ↦ rw f (
          ground (
            arith,
            Dispatches-unreported r (record w { pending_write = none }) _ c
                (dispatch_write-Dispatches (record w { pending_write = none }) c h
                  (rw e (omega arith))),
          ))
    ]

count_writes-take_at :
    (r : Range) (i : ℕ) (cs rest : List PendingWrite) (c : PendingWrite)
    → take_at i cs ≡ some (c, rest)
    → count_writes r cs ≡ hit r c.range + count_writes r rest
count_writes-take_at r i [] rest c e = absurd (ground arith)
count_writes-take_at r zero (d ∷ cs) rest c e = ground arith
count_writes-take_at r (suc i) (d ∷ cs) rest c e =
    go (take_at i cs) refl (count_writes-take_at r i cs)
  where
    go :
        (o : Option (PendingWrite × List PendingWrite))
        → take_at i cs ≡ o
        → ((q : List PendingWrite) (x : PendingWrite)
            → take_at i cs ≡ some (x, q)
            → count_writes r cs ≡ hit r x.range + count_writes r q)
        → count_writes r (d ∷ cs) ≡ hit r c.range + count_writes r rest
    go none q ih = absurd (ground arith)
    go (some (x, q)) p ih = ground (arith, ih q x p)

pub settled-unreported :
    (r : Range) (w : PendingWriter) (h : Host)
    → unreported r (settled w h) + count_reports r w.channel ≡ unreported r w
settled-unreported r w h = either (acked w).saw_error
  where
    either :
        (failed : Bool)
        → unreported r (if not failed then try_flush_pending (acked w) h else acked w)
            + count_reports r w.channel
          ≡ unreported r w
    either true = omega arith
    either false = omega (arith, try_flush_pending-unreported r (acked w) h refl)

pub complete_at-unreported :
    (r : Range) (w : PendingWriter) (i : ℕ) (result : Result (Unit {0}) WriteError)
    → IsValid w
    → unreported r (complete_at w i result) ≡ unreported r w
unfolding complete_at
complete_at-unreported r w i result v = go (take_at i w.outstanding) refl
  where
    go :
        (o : Option (PendingWrite × List PendingWrite))
        → take_at i w.outstanding ≡ o
        → unreported r (complete_at w i result) ≡ unreported r w
    go none e = rw (e, complete_at) refl
    go (some (c, rest)) e = rw (complete_at_lem w i result c rest v e) (
        omega (
          arith,
          count_reports-append r w.channel (record { range = c.range; result = result } ∷ []),
          count_writes-take_at r i w.outstanding rest c e,
        ))
