-- ===== src/Planner/Chunk.antt =====
-- chunk_planner.rs: `ChunkStatus`, `ChunkState`, `Error` and `Resize`. A runner id and an offset are
-- natural numbers; a `Range<u64>` is half open.
use bolt_load.Prelude.{ℕ, Bool, true, false, Option, none, some, leb, sub64}

-- `std::ops::Range<u64>`.
pub record Range : Type 0 where
  pub start : ℕ
  pub end : ℕ

abbrev pub range : ℕ → ℕ → Range
range s e = record { start = s; end = e }

pub data ChunkStatus : Type 0 where
  idle running pending finished failed : ChunkStatus

pub record ChunkState : Type 0 where
  pub allocated : Range
  pub downloaded : Range
  pub runner_id : Option ℕ
  pub status : ChunkStatus

pub data Error : Type 0 where
  runner_not_found chunk_not_found invalid_split_position : ℕ → Error
  invalid_resize : ℕ → ℕ → Error

pub data Resize : Type 0 where
  unchanged : Resize
  shrunk : ℕ → Resize

abbrev pub is_active : ChunkStatus → Bool
is_active running = true
is_active pending = true
is_active _ = false

abbrev pub new_chunk : Range → Option ℕ → ChunkStatus → ChunkState
new_chunk allocated runner_id status = record {
  allocated = allocated;
  downloaded = range allocated.start allocated.start;
  runner_id = runner_id;
  status = status;
}

-- `new_idle`, `new_running` and `new_pending`.
abbrev pub new_idle : Range → ChunkState
new_idle allocated = new_chunk allocated none idle

abbrev pub new_running : Range → ℕ → ChunkState
new_running allocated runner_id = new_chunk allocated (some runner_id) running

abbrev pub from_runner_id : Range → Option ℕ → ChunkState
from_runner_id allocated none = new_idle allocated
from_runner_id allocated (some runner_id) = new_running allocated runner_id

-- `self.allocated.end - self.downloaded.end`, which wraps.
abbrev pub remaining : ChunkState → ℕ
remaining c = sub64 c.allocated.end c.downloaded.end

abbrev pub is_chunk_complete : ChunkState → Bool
is_chunk_complete c = leb c.allocated.end c.downloaded.end
