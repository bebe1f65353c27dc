-- ===== src/Planner/State.antt =====
-- chunk_planner.rs: `ChunkPlanner` and the operations that change it. An operation takes the planner
-- and returns the new planner with its result. `debug_assert!` does nothing in a release build.
use bolt_load.Prelude.{
  ℕ, Bool, true, false, ◌||◌, ◌&&◌, Option, none, some, List, [], Result, ok, err, ltb, leb, ◌==◌,
  if◌then◌else◌, add64, sub64, checked_add, min, length,
}
use bolt_load.OrdMap.{get, insert, remove, last_before}
use bolt_load.Planner.Chunk.{
  Range, range, ChunkStatus, idle, running, pending, finished, ChunkState, Error, runner_not_found,
  chunk_not_found, invalid_split_position, invalid_resize, Resize, unchanged, shrunk, new_chunk,
  from_runner_id, remaining, is_chunk_complete,
}

pub record ChunkPlanner : Type 0 where
  pub total : ℕ
  pub min_chunk_size : ℕ
  pub max_chunk_count : Option ℕ
  pub chunks : List (ℕ × ChunkState)
  pub runner_to_chunk : List (ℕ × ℕ)
  pub accepted_bytes : ℕ

abbrev pub default_min_chunk_size : ℕ
default_min_chunk_size = 1048576

abbrev pub new : ℕ → ChunkPlanner
new total = record {
  total = total;
  min_chunk_size = default_min_chunk_size;
  max_chunk_count = none;
  chunks = [];
  runner_to_chunk = [];
  accepted_bytes = 0;
}

abbrev pub get_chunks_count : ChunkPlanner → ℕ
get_chunks_count p = length p.chunks

-- `self.get_chunks_count() >= max.get()`, if there is a maximum.
abbrev pub at_max_chunks : ChunkPlanner → Bool
at_max_chunks p = elim p.max_chunk_count [
  | none ↦ false
  | some most ↦ leb most (get_chunks_count p)
]

abbrev pub overlaps : ChunkPlanner → Range → Bool
overlaps p r = elim (last_before r.end p.chunks) [
  | none ↦ false
  | some (_, pred) ↦ ltb r.start pred.allocated.end
]

abbrev pub map_runner : Option ℕ → ℕ → List (ℕ × ℕ) → List (ℕ × ℕ)
map_runner none start m = m
map_runner (some id) start m = insert id start m

unfoldable pub allocate_chunk_inner :
    ChunkPlanner → Range → Option ℕ → ChunkStatus → ChunkPlanner × Bool
allocate_chunk_inner p r runner_id status =
    if leb r.end r.start || ltb p.total r.end
    then (p, false)
    else if at_max_chunks p
    then (p, false)
    else if overlaps p r
    then (p, false)
    else (
      record p {
        chunks = insert r.start (new_chunk r runner_id status) p.chunks;
        runner_to_chunk = map_runner runner_id r.start p.runner_to_chunk;
      },
      true,
    )

abbrev pub allocate_pending_chunk : ChunkPlanner → Range → ℕ → ChunkPlanner × Bool
allocate_pending_chunk p r runner_id = allocate_chunk_inner p r (some runner_id) pending

abbrev pub allocate_idle_chunk : ChunkPlanner → Range → ChunkPlanner × Bool
allocate_idle_chunk p r = allocate_chunk_inner p r none idle

abbrev pub allocate_chunk : ChunkPlanner → Range → Option ℕ → ChunkPlanner × Bool
allocate_chunk p r none = allocate_idle_chunk p r
allocate_chunk p r (some runner_id) = allocate_pending_chunk p r runner_id

-- The runner's chunk, found through the runner map: its start and its state.
unfoldable pub locate : ChunkPlanner → ℕ → Result (ℕ × ChunkState) Error
locate p id = elim (get id p.runner_to_chunk) [
  | none ↦ err (runner_not_found id)
  | some start ↦ elim (get start p.chunks) [
    | none ↦ err (chunk_not_found id)
    | some c ↦ ok (start, c)
  ]
]

-- The downloaded end moves by at most what remains; a chunk that is full is finished.
abbrev pub accept : ChunkState → ℕ → ChunkState
accept c bytes =
    let new_end = add64 c.downloaded.end (min bytes (remaining c)) in
    let c' : ChunkState = record c { downloaded = range c.downloaded.start new_end } in
    record c' { status = if is_chunk_complete c' then finished else c.status }

-- `update_progress`; its two errors are strings in the source, of the same text as these.
unfoldable pub update_progress : ChunkPlanner → ℕ → ℕ → ChunkPlanner × Result Range Error
unfolding locate
update_progress p id bytes = elim (locate p id) [
  | err e ↦ (p, err e)
  | ok (start, c) ↦
      let c' : ChunkState = accept c bytes in
      (
        record p {
          chunks = insert start c' p.chunks;
          accepted_bytes = add64 p.accepted_bytes (sub64 c'.downloaded.end c.downloaded.end);
        },
        ok (range c.downloaded.end c'.downloaded.end),
      )
]

unfoldable pub mark_running : ChunkPlanner → ℕ → ChunkPlanner × Result (Unit {0}) Error
unfolding locate
mark_running p id = elim (locate p id) [
  | err e ↦ (p, err e)
  | ok (start, c) ↦
      (record p { chunks = insert start (record c { status = running }) p.chunks }, ok tt)
]

-- The runner is taken out of the runner map before its chunk is looked up.
abbrev pub forget : ChunkPlanner → ℕ → ChunkPlanner
forget p id = record p { runner_to_chunk = remove id p.runner_to_chunk }

unfoldable pub mark_finished : ChunkPlanner → ℕ → ChunkPlanner × Result (Unit {0}) Error
unfolding locate
mark_finished p id = elim (locate p id) [
  | err e ↦ (forget p id, err e)
  | ok (start, c) ↦ (
    record p {
      chunks = insert start (record c { status = finished }) p.chunks;
      runner_to_chunk = remove id p.runner_to_chunk;
    },
    ok tt,
  )
]

-- What `mark_failed` leaves of a chunk: its downloaded part, finished and without a runner.
abbrev pub keep_downloaded : ChunkState → ChunkState
keep_downloaded c = record c {
  allocated = range c.allocated.start c.downloaded.end;
  status = finished;
  runner_id = none;
}

unfoldable pub mark_failed : ChunkPlanner → ℕ → ChunkPlanner × Result Range Error
unfolding locate
mark_failed p id = elim (locate p id) [
  | err e ↦ (forget p id, err e)
  | ok (start, c) ↦
      let chunks' = remove start p.chunks in
      let p' : ChunkPlanner = record p {
        chunks = chunks';
        runner_to_chunk = remove id p.runner_to_chunk;
      } in
      if c.downloaded.start == c.downloaded.end then (p', ok c.allocated) else (
        record p' { chunks = insert start (keep_downloaded c) chunks' },
        ok (range c.downloaded.end c.allocated.end),
      )
]

unfoldable pub split_chunk : ChunkPlanner → ℕ → ℕ → ℕ → ChunkPlanner × Result Range Error
unfolding locate
split_chunk p id split_pos new_id = elim (locate p id) [
  | err e ↦ (forget p id, err e)
  | ok (start, c) ↦
      let chunks' = remove start p.chunks in
      let runners' = remove id p.runner_to_chunk in
      if leb split_pos c.downloaded.end || leb c.allocated.end split_pos
      then (
        record p { chunks = insert start c chunks'; runner_to_chunk = insert id start runners' },
        err (invalid_split_position split_pos),
      )
      else (
        record p {
          chunks =
              insert split_pos (from_runner_id (range split_pos c.allocated.end) (some new_id)) (
                insert c.allocated.start
                  (record c { allocated = range c.allocated.start split_pos }) chunks');
          runner_to_chunk = insert new_id split_pos (insert id c.allocated.start runners');
        },
        ok (range split_pos c.allocated.end),
      )
]

-- `downloaded.end.checked_add(new_size)`, if it cuts the chunk short and leaves it non-empty.
unfoldable pub resize_runner_state : ChunkPlanner → ℕ → ℕ → ChunkPlanner × Result Resize Error
unfolding locate
resize_runner_state p id new_size = elim (locate p id) [
  | err e ↦ (p, err e)
  | ok (start, c) ↦ elim (checked_add c.downloaded.end new_size) [
    | none ↦ (p, err (invalid_resize id new_size))
    | some new_end ↦
        if new_end == c.allocated.end
        then (p, ok unchanged)
        else if ltb c.allocated.start new_end && ltb new_end c.allocated.end
        then (
          record p {
            chunks =
                insert start (record c { allocated = range c.allocated.start new_end }) p.chunks;
          },
          ok (shrunk (sub64 new_end c.allocated.start)),
        )
        else (p, err (invalid_resize id new_size))
  ]
]

-- `get_runner_state`.
unfoldable pub get_runner_state : ChunkPlanner → ℕ → Option ChunkState
get_runner_state p id = elim (get id p.runner_to_chunk) [
  | none ↦ none
  | some start ↦ get start p.chunks
]
