-- ===== src/Planner/Guard.antt =====
-- chunk_planner.rs: `PlannerGuard`, which restores the planner unless the work on it is committed.
-- The guard borrows the planner mutably: `planner` is the borrowed planner as it stands.
use bolt_load.Prelude.{Bool, true, false, if◌then◌else◌}
use bolt_load.Planner.State.{ChunkPlanner}

pub record PlannerGuard : Type 0 where
  pub planner : ChunkPlanner
  pub snapshot : ChunkPlanner
  pub committed : Bool

unfoldable pub new_guard : ChunkPlanner → PlannerGuard
new_guard p = record { planner = p; snapshot = p; committed = false }

-- `Drop::drop`: what the borrowed planner is once the guard is gone.
unfoldable pub drop : PlannerGuard → ChunkPlanner
drop g = if g.committed then g.planner else g.snapshot

-- `commit` takes the guard, so it is dropped at the end.
unfoldable pub commit : PlannerGuard → ChunkPlanner
unfolding drop
commit g = drop (record g { committed = true })
