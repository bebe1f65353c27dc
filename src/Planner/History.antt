-- ===== src/Planner/History.antt =====
-- The operations of `ChunkPlanner` as calls, and sequences of calls.
use bolt_load.Prelude.{ℕ, Option, List, [], ◌∷◌}
use bolt_load.Planner.Chunk.{Range}
use bolt_load.Planner.State.{
  ChunkPlanner, allocate_chunk, update_progress, mark_running, mark_finished, mark_failed,
  split_chunk, resize_runner_state,
}

pub data Call : Type 0 where
  allocate : Range → Option ℕ → Call
  progress resize : ℕ → ℕ → Call
  run finish fail : ℕ → Call
  split : ℕ → ℕ → ℕ → Call

-- The planner after a call, whatever the call returned.
unfoldable pub step : ChunkPlanner → Call → ChunkPlanner
step p (Call.allocate r owner) = (allocate_chunk p r owner).0
step p (Call.progress id bytes) = (update_progress p id bytes).0
step p (Call.resize id size) = (resize_runner_state p id size).0
step p (Call.run id) = (mark_running p id).0
step p (Call.finish id) = (mark_finished p id).0
step p (Call.fail id) = (mark_failed p id).0
step p (Call.split id pos new_id) = (split_chunk p id pos new_id).0

unfoldable pub steps : ChunkPlanner → List Call → ChunkPlanner
steps p [] = p
steps p (c ∷ cs) = steps (step p c) cs
