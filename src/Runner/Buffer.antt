-- ===== src/Runner/Buffer.antt =====
-- run_loop/stream.rs: buffering an item keeps the invariant, and needs no more than its fuel.
use bolt_load.Prelude.{
  ℕ, ◌+◌, ◌-◌, ◌≤◌, ◌<◌, ◌≡◌, refl, sym, ap, ◌∙◌, inl, inr, false, Option, none, some, [], ◌∷◌,
  ◌++◌, arith, length, Bool-cases, min, is_empty, leb, ◌==◌,
}
use mathlib.Core.Path.{subst}
use mathlib.Core.List.{append-nil}
use bolt_load.Manager.Types.{Bytes}
use bolt_load.Runner.State.{
  TaskRunner, resume_rest, validate, ItemCursor, StreamingState, streaming, RunnerLoop, buffer_size,
  allowance,
}
use bolt_load.Runner.Handle.{
  at_phase, flush, skip, extend, buffer_cursor, buffer_rest, buffer_item, buffer_fuel,
}
use bolt_load.Runner.Slices.{skip_all}
use bolt_load.Runner.Valid.{Fits, IsQuiet, IsStaged}
use bolt_load.Runner.Holding.{
  Succeeds, less-Fits, flush-Succeeds, grown-Fits, length-extend, extend-whole, IsHolding,
}

-- The loop while it buffers the rest of an item.
pub record IsBuffering (most : Option ℕ) (r : TaskRunner) (s : StreamingState) (item : ItemCursor)
    : Type 0 where
  pub counted : r.downloaded ≡ length r.delivered
  pub quiet : IsQuiet r.published
  pub unstaged : s.staged ≡ none
  pub whole : (r.delivered ++ s.buffer) ++ skip item.offset item.bytes ≡ r.received
  pub small : length s.buffer ≤ buffer_size
  pub fits : Fits most r (length s.buffer)

extended-IsHolding :
    (most : Option ℕ) (r : TaskRunner) (s : StreamingState) (item : ItemCursor) (n : ℕ)
    → IsBuffering most r s item
    → n ≤ allowance r s.buffer
    → IsHolding most r (extend s.buffer item n)
extended-IsHolding most r s item n v h = record {
  counted = v.counted;
  quiet = v.quiet;
  begun = (_, extend-whole r.delivered s.buffer r.received item n v.whole);
  fits =
      less-Fits most r (length s.buffer + n) _ (omega (arith, length-extend s.buffer item n))
        (grown-Fits most r s.buffer n v.fits h);
}

whole_at_end : (xs bs ys : Bytes) (n : ℕ) → length bs ≤ n → xs ++ skip n bs ≡ ys → xs ≡ ys
whole_at_end xs bs ys n h e =
    sym (append-nil xs) ∙ ap (λ (z : Bytes). xs ++ z) (sym (skip_all n bs h)) ∙ e

-- The item was buffered whole.
finished-Succeeds :
    (most : Option ℕ) (l : RunnerLoop) (s : StreamingState) (buffer : Bytes)
    → s.staged ≡ none
    → length buffer ≤ buffer_size
    → l.runner.delivered ++ buffer ≡ l.runner.received
    → IsHolding most l.runner buffer
    → Succeeds most (some (at_phase l (streaming (record s { buffer = buffer; rest = none }))))
finished-Succeeds most l s buffer unstaged small whole v = (
  _,
  refl,
  record {
    counted = v.counted;
    running = (
      v.quiet,
      subst (λ x. IsStaged most l.runner (record s { buffer = buffer; rest = none }) x)
          (sym unstaged) (refl, whole, small, v.fits),
    );
  },
)

-- The buffer is full, and the item goes on.
full-Succeeds :
    (most : Option ℕ) (resume : RunnerLoop → Option RunnerLoop) (l : RunnerLoop)
    (s : StreamingState) (item : ItemCursor) (taken : ℕ)
    → IsBuffering most l.runner s item
    → taken ≤ allowance l.runner s.buffer
    → is_empty (extend s.buffer item taken) ≡ false
    → Succeeds most (
        flush resume l
          (record s {
            buffer = extend s.buffer item taken;
            rest = some (record item { offset = item.offset + taken });
          })
          resume_rest)
full-Succeeds most resume l s item taken v h some_bytes =
    let held = extended-IsHolding most l.runner s item taken v h in
    let whole = extend-whole l.runner.delivered s.buffer l.runner.received item taken v.whole in
    rw some_bytes (
      _,
      refl,
      record {
        counted = v.counted;
        running =
            (v.quiet, (refl, (extend s.buffer item taken, refl, (_, refl, whole), held.fits)));
      },
    )

nonempty : (bs : Bytes) → 0 < length bs → is_empty bs ≡ false
nonempty [] h = absurd (omega arith)
nonempty (b ∷ bs) h = refl

buffer_cursor-Succeeds :
    (most : Option ℕ) (resume : RunnerLoop → Option RunnerLoop) (l : RunnerLoop)
    (s : StreamingState) (item : ItemCursor)
    → IsBuffering most l.runner s item
    → Succeeds most (buffer_cursor resume l s item (allowance l.runner s.buffer))
buffer_cursor-Succeeds most resume l s item v =
    let r = l.runner in
    let allowed = allowance r s.buffer in
    let writable = min (length item.bytes - item.offset) allowed in
    let taken = buffer_size - length s.buffer in
    let longer = λ (n : ℕ). length-extend s.buffer item n in
    let held = λ (n : ℕ). extended-IsHolding most r s item n v in
    let kept : IsHolding most r s.buffer = record {
      counted = v.counted;
      quiet = v.quiet;
      begun = (_, v.whole);
      fits = v.fits;
    } in
    elim (Bool-cases (item.offset == length item.bytes)) [
      | inl done ↦
          let whole =
            whole_at_end _ item.bytes r.received item.offset (ground (arith, done)) v.whole in
          rw done (finished-Succeeds most l s s.buffer v.unstaged v.small whole kept)
      | inr more ↦ rw more (elim (Bool-cases (leb (length s.buffer + writable) buffer_size)) [
        | inr full ↦
            let smaller : taken ≤ allowed = ground (arith, full) in
            let filled = nonempty _ (ground (arith, full, longer taken, v.small)) in
            rw full (full-Succeeds most resume l s item taken v smaller filled)
        | inl room ↦ rw room (elim (Bool-cases (writable == allowed)) [
          | inl last ↦ rw last (
              flush-Succeeds most resume l (record s { buffer = extend s.buffer item writable })
                validate refl (held writable (omega arith)))
          | inr not_last ↦
              let whole =
                whole_at_end _ item.bytes r.received (item.offset + writable)
                  (ground (arith, not_last))
                  (extend-whole r.delivered s.buffer r.received item writable v.whole) in
              rw not_last (
                finished-Succeeds most l s (extend s.buffer item writable) v.unstaged
                  (ground (arith, room, longer writable)) whole (held writable (omega arith)))
        ])
      ])
    ]

-- `buffer_item` with the fuel it is given.
pub buffer_item-Succeeds :
    (most : Option ℕ) (r : TaskRunner) (s : StreamingState) (item : ItemCursor)
    → s.rest ≡ some item
    → IsBuffering most r s item
    → Succeeds most (buffer_item buffer_fuel (record { runner = r; phase = streaming s }))
unfolding buffer_item
buffer_item-Succeeds most r s item rest v =
    let l : RunnerLoop = record { runner = r; phase = streaming s } in
    let held : IsHolding most r s.buffer = record {
      counted = v.counted;
      quiet = v.quiet;
      begun = (_, v.whole);
      fits = v.fits;
    } in
    elim (Bool-cases (allowance r s.buffer == 0)) [
      | inl none_left ↦ rw none_left (flush-Succeeds most (buffer_item 0) l s validate refl held)
      | inr more ↦ rw more (
          subst (λ x. Succeeds most (buffer_rest (buffer_item 0) l s (allowance r s.buffer) x))
            (sym rest) (buffer_cursor-Succeeds most (buffer_item 0) l s item v))
    ]
