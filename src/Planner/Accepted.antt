-- ===== src/Planner/Accepted.antt =====
-- `accepted_bytes`: what each call does to the count.
use bolt_load.Prelude.{ℕ, Bool, true, false, ◌≤◌, ◌≡◌, refl, Option, none, some, arith}
use bolt_load.Planner.Chunk.{Range}
use bolt_load.Planner.State.{
  ChunkPlanner, allocate_chunk, allocate_chunk_inner, update_progress, mark_running, mark_finished,
  mark_failed, split_chunk, resize_runner_state,
}
use bolt_load.Planner.Chain.{downloaded_bytes-le}
use bolt_load.Planner.History.{Call, step}
use bolt_load.Planner.Reach.{step-IsValid}
use bolt_load.Planner.Valid.{IsValid, locate_cases}
use bolt_load.Planner.Valid.Steps.{counted_progress}

allocate_chunk-accepted :
    (p : ChunkPlanner) (r : Range) (owner : Option ℕ)
    → (allocate_chunk p r owner).0.accepted_bytes ≡ p.accepted_bytes
unfolding allocate_chunk_inner
allocate_chunk-accepted p r none = ground arith
allocate_chunk-accepted p r (some id) = ground arith

allocate_chunk-total :
    (p : ChunkPlanner) (r : Range) (owner : Option ℕ) → (allocate_chunk p r owner).0.total ≡ p.total
unfolding allocate_chunk_inner
allocate_chunk-total p r none = ground arith
allocate_chunk-total p r (some id) = ground arith

step-total : (p : ChunkPlanner) (c : Call) → (step p c).total ≡ p.total
unfolding step update_progress mark_running mark_finished mark_failed split_chunk
    resize_runner_state
step-total p (Call.allocate r owner) = allocate_chunk-total p r owner
step-total p (Call.progress id bytes) = ground arith
step-total p _ = ground arith

-- The calls that accept no bytes.
abbrev accepts : Call → Bool
accepts (Call.progress id bytes) = true
accepts _ = false

kept_accepted :
    (p : ChunkPlanner) (c : Call) → accepts c ≡ false → (step p c).accepted_bytes ≡ p.accepted_bytes
unfolding step mark_running mark_finished mark_failed split_chunk resize_runner_state
kept_accepted p (Call.allocate r owner) h = allocate_chunk-accepted p r owner
kept_accepted p (Call.progress id bytes) h = cc
kept_accepted p _ h = ground arith

-- Progress adds at most what is missing.
progress-accepted :
    (p : ChunkPlanner) (id bytes : ℕ)
    → IsValid p
    → p.accepted_bytes ≤ (update_progress p id bytes).0.accepted_bytes
unfolding update_progress
progress-accepted p id bytes v =
    locate_cases p id v (λ q e. rw (q, update_progress) (omega arith))
      (λ start c q l.
        rw (q, update_progress) (omega (arith, counted_progress p id bytes start c v l)))

-- A call on a valid planner drops no accepted byte, and accepts no more bytes than there are.
pub step-accepted_bounds :
    (p : ChunkPlanner) (c : Call)
    → IsValid p
    → (p.accepted_bytes ≤ (step p c).accepted_bytes) × ((step p c).accepted_bytes ≤ p.total)
unfolding step
step-accepted_bounds p c v = (
  grows c,
  omega (
    arith,
    (step-IsValid p c v).counted,
    downloaded_bytes-le 0 (step p c).total (step p c).chunks (step-IsValid p c v).chain,
    step-total p c,
  ),
)
  where
    grows : (d : Call) → p.accepted_bytes ≤ (step p d).accepted_bytes
    grows (Call.allocate r owner) = omega (arith, allocate_chunk-accepted p r owner)
    grows (Call.progress id bytes) = progress-accepted p id bytes v
    grows d = omega (arith, kept_accepted p d refl)
