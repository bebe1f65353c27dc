-- ===== src/Planner/Reach.antt =====
-- Sequences of calls and the validity of a planner.
use mathlib.Core.Path.{subst}
use bolt_load.Prelude.{
  ℕ, ◌<◌, ◌≡◌, ◌≢◌, sym, err, arith, Option, none, some, List, [], ◌∷◌, u64_mod,
}
use bolt_load.Planner.Chunk.{Range, chunk_not_found}
use bolt_load.Planner.State.{
  ChunkPlanner, new, allocate_chunk, update_progress, mark_running, mark_finished, mark_failed,
  split_chunk, resize_runner_state,
}
use bolt_load.Planner.History.{Call, step, steps}
use bolt_load.Planner.Valid.{IsValid, new-IsValid, locate_cases}
use bolt_load.Planner.Valid.Steps.{
  update_progress-IsValid, mark_running-IsValid, mark_finished-IsValid, mark_failed-IsValid,
  resize_runner_state-IsValid,
}
use bolt_load.Planner.Valid.Split.{allocate_chunk_inner-IsValid, split_chunk-IsValid}

allocate_chunk-IsValid :
    (p : ChunkPlanner) (r : Range) (owner : Option ℕ)
    → IsValid p
    → IsValid (allocate_chunk p r owner).0
allocate_chunk-IsValid p r none v = allocate_chunk_inner-IsValid p r _ _ v
allocate_chunk-IsValid p r (some id) v = allocate_chunk_inner-IsValid p r _ _ v

-- One call keeps a planner valid, also a call that fails.
pub step-IsValid : (p : ChunkPlanner) (c : Call) → IsValid p → IsValid (step p c)
unfolding step
step-IsValid p (Call.allocate r owner) v = allocate_chunk-IsValid p r owner v
step-IsValid p (Call.progress id bytes) v = update_progress-IsValid p id bytes v
step-IsValid p (Call.resize id size) v = resize_runner_state-IsValid p id size v
step-IsValid p (Call.run id) v = mark_running-IsValid p id v
step-IsValid p (Call.finish id) v = mark_finished-IsValid p id v
step-IsValid p (Call.fail id) v = mark_failed-IsValid p id v
step-IsValid p (Call.split id pos new_id) v = split_chunk-IsValid p id pos new_id v

pub steps-IsValid : (p : ChunkPlanner) (cs : List Call) → IsValid p → IsValid (steps p cs)
unfolding steps
steps-IsValid p [] v = v
steps-IsValid p (c ∷ cs) v = steps-IsValid (step p c) cs (step-IsValid p c v)

-- Every planner that a sequence of calls reaches from a new one is valid, for a total below 2 ^ 64
-- and whatever minimal chunk size and maximal chunk count it was given: its chunks are in key order,
-- lie within the total, do not overlap, and are keyed by their start; what a chunk has downloaded is
-- a prefix of it; `accepted_bytes` is the number of downloaded bytes; and each runner of the map has
-- a chunk that carries its id.
pub steps-new-IsValid :
    (total min_size : ℕ) (most : Option ℕ) (cs : List Call)
    → total < u64_mod
    → IsValid (steps (record (new total) { min_chunk_size = min_size; max_chunk_count = most }) cs)
steps-new-IsValid total min_size most cs h = steps-IsValid _ cs (record {
  fits = h;
  chain = (new-IsValid total h).chain;
  counted = (new-IsValid total h).counted;
  mapped = (new-IsValid total h).mapped;
})

-- On a planner whose runners have their chunks no operation reports that a chunk is missing.
valid_finds_chunk :
    (p : ChunkPlanner) (id n m k : ℕ)
    → IsValid p
    → ((update_progress p id n).1 ≢ err (chunk_not_found k))
      × ((mark_running p id).1 ≢ err (chunk_not_found k))
      × ((mark_finished p id).1 ≢ err (chunk_not_found k))
      × ((mark_failed p id).1 ≢ err (chunk_not_found k))
      × ((split_chunk p id n m).1 ≢ err (chunk_not_found k))
      × ((resize_runner_state p id n).1 ≢ err (chunk_not_found k))
unfolding update_progress mark_running mark_finished mark_failed split_chunk resize_runner_state
valid_finds_chunk p id n m k v =
    locate_cases p id v
      (λ q _. (
        rw (q, update_progress) (λ e. cc),
        rw (q, mark_running) (λ e. cc),
        rw (q, mark_finished) (λ e. cc),
        rw (q, mark_failed) (λ e. cc),
        rw (q, split_chunk) (λ e. cc),
        rw (q, resize_runner_state) (λ e. cc),
      ))
      (λ start c q _. (
        rw (q, update_progress) (λ e. cc),
        rw (q, mark_running) (λ e. cc),
        rw (q, mark_finished) (λ e. cc),
        rw (q, mark_failed) (ground arith),
        rw (q, split_chunk) (ground arith),
        rw (q, resize_runner_state) (ground arith),
      ))

-- Whatever calls a new planner has had, also calls that failed, for a total below 2 ^ 64 and any
-- minimal chunk size and maximal chunk count, no operation on any runner then ends in
-- `ChunkNotFound`, whichever runner the error would name.
pub never_chunk_not_found :
    (total min_size : ℕ) (most : Option ℕ) (cs : List Call) (id n m k : ℕ) (p : ChunkPlanner)
    → total < u64_mod
    → p ≡ steps (record (new total) { min_chunk_size = min_size; max_chunk_count = most }) cs
    → ((update_progress p id n).1 ≢ err (chunk_not_found k))
      × ((mark_running p id).1 ≢ err (chunk_not_found k))
      × ((mark_finished p id).1 ≢ err (chunk_not_found k))
      × ((mark_failed p id).1 ≢ err (chunk_not_found k))
      × ((split_chunk p id n m).1 ≢ err (chunk_not_found k))
      × ((resize_runner_state p id n).1 ≢ err (chunk_not_found k))
never_chunk_not_found total min_size most cs id n m k p h e =
    valid_finds_chunk p id n m k
      (subst IsValid (sym e) (steps-new-IsValid total min_size most cs h))
