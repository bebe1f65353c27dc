-- ===== src/Planner/Queries.antt =====
-- chunk_planner.rs: the operations that read a `ChunkPlanner`, and `merge_adjacent_ranges`.
use bolt_load.Prelude.{
  is_empty, ℕ, ◌+◌, ◌-◌, Bool, true, false, not, ◌&&◌, Option, none, some, List, [], ◌∷◌, ltb, leb,
  if◌then◌else◌, add64, mul64, max, all, filter, length, is_some,
}
use bolt_load.OrdMap.{values}
use bolt_load.Planner.Chunk.{
  Range, range, ChunkStatus, running, finished, ChunkState, is_active, remaining,
}
use bolt_load.Planner.State.{ChunkPlanner}

-- The length of a gap or of a downloaded range, whose start lies below its end.
abbrev pub len : Range → ℕ
len r = r.end - r.start

-- `get_active_runners_count`.
unfoldable pub get_active_runners_count : ChunkPlanner → ℕ
get_active_runners_count p = length (filter (λ c. is_active c.status) (values p.chunks))

-- The gaps between the chunks, from `cursor` up to `total`.
unfoldable pub available_from : ℕ → List (ℕ × ChunkState) → ℕ → List Range
available_from cursor [] total = if ltb cursor total then range cursor total ∷ [] else []
available_from cursor ((k, c) ∷ m) total =
    let rest = available_from c.allocated.end m total in
    if ltb cursor c.allocated.start then range cursor c.allocated.start ∷ rest else rest

abbrev pub get_available_ranges : ChunkPlanner → List Range
get_available_ranges p = available_from 0 p.chunks p.total

-- `sort_by_key(|r| r.start)`, which is stable.
unfoldable pub insert_by_start : Range → List Range → List Range
insert_by_start r [] = r ∷ []
insert_by_start r (x ∷ xs) = if leb r.start x.start then r ∷ x ∷ xs else x ∷ insert_by_start r xs

unfoldable pub sort_by_start : List Range → List Range
unfolding insert_by_start
sort_by_start [] = []
sort_by_start (r ∷ rs) = insert_by_start r (sort_by_start rs)

-- The loop of `merge_adjacent_ranges`; `last` is the last range of `merged`.
unfoldable pub merge_from : Range → List Range → List Range
merge_from last [] = last ∷ []
merge_from last (r ∷ rs) =
    let touches = leb r.start last.end in
    let rest = merge_from (if touches then range last.start (max last.end r.end) else r) rs in
    if touches then rest else last ∷ rest

abbrev pub merge_sorted : List Range → List Range
merge_sorted [] = []
merge_sorted (r ∷ rs) = merge_from r rs

unfoldable pub merge_adjacent_ranges : List Range → List Range
unfolding sort_by_start
merge_adjacent_ranges rs = merge_sorted (sort_by_start rs)

-- The downloaded ranges that are not empty.
unfoldable pub downloaded_ranges : List (ℕ × ChunkState) → List Range
downloaded_ranges [] = []
downloaded_ranges ((k, c) ∷ m) =
    let rest = downloaded_ranges m in
    if ltb c.downloaded.start c.downloaded.end then c.downloaded ∷ rest else rest

unfoldable pub get_downloaded_ranges : ChunkPlanner → List Range
unfolding downloaded_ranges merge_adjacent_ranges
get_downloaded_ranges p = merge_adjacent_ranges (sort_by_start (downloaded_ranges p.chunks))

abbrev pub get_total_downloaded : ChunkPlanner → ℕ
get_total_downloaded p = p.accepted_bytes

-- `min_chunk_size.map(|v| v.max(2 * self.min_chunk_size)).unwrap_or(2 * self.min_chunk_size)`.
abbrev pub split_threshold : ChunkPlanner → Option ℕ → ℕ
split_threshold p none = mul64 2 p.min_chunk_size
split_threshold p (some v) = max v (mul64 2 p.min_chunk_size)

abbrev pub is_running : ChunkStatus → Bool
is_running running = true
is_running _ = false

abbrev pub may_split : ℕ → ChunkState → Bool
may_split threshold c =
    is_running c.status && ltb c.downloaded.end c.allocated.end && leb threshold (remaining c)

-- `none` is the panic of `expect`, on a running chunk without a runner.
unfoldable pub incomplete_states : ℕ → List ChunkState → Option (List (ℕ × Range))
incomplete_states threshold [] = some []
incomplete_states threshold (c ∷ cs) =
    let rest = incomplete_states threshold cs in
    if may_split threshold c
    then (elim c.runner_id [
      | none ↦ none
      | some id ↦ elim rest [
        | none ↦ none
        | some states ↦ some ((id, range c.downloaded.end c.allocated.end) ∷ states)
      ]
    ])
    else rest

unfoldable pub get_incomplete_states : ChunkPlanner → Option ℕ → Option (List (ℕ × Range))
unfolding incomplete_states
get_incomplete_states p min_chunk_size =
    incomplete_states (split_threshold p min_chunk_size) (values p.chunks)

-- The loop over the available ranges: the first that is long enough, cut to size, else the longest,
-- the later of two equally long.
abbrev pub longer : Option Range → Range → Option Range
longer none r = some r
longer (some b) r = if ltb (len r) (len b) then some b else some r

unfoldable pub pick_available : ℕ → Option Range → List Range → Option Range
pick_available required best [] = best
pick_available required best (r ∷ rs) =
    let rest = pick_available required (longer best r) rs in
    if leb required (len r) then some (range r.start (r.start + required)) else rest

-- The filter of the second search of `find_chunk_to_split`.
abbrev pub is_candidate : ℕ → ChunkState → Bool
is_candidate min_size c = is_running c.status && is_some c.runner_id && leb min_size (remaining c)

-- `max_by_key(|c| c.remaining())`, which returns the last of the largest.
unfoldable pub max_by_remaining : Option ChunkState → List ChunkState → Option ChunkState
max_by_remaining best [] = best
max_by_remaining none (c ∷ cs) = max_by_remaining (some c) cs
max_by_remaining (some b) (c ∷ cs) =
    max_by_remaining (if ltb (remaining c) (remaining b) then some b else some c) cs

unfoldable pub best_candidate : ChunkPlanner → Option ChunkState
unfolding max_by_remaining
best_candidate p = max_by_remaining none (filter (is_candidate p.min_chunk_size) (values p.chunks))

unfoldable pub find_chunk_to_split : ChunkPlanner → ℕ → Option (Option ℕ × Range)
unfolding pick_available best_candidate
find_chunk_to_split p required = elim (pick_available required none (get_available_ranges p)) [
  | some r ↦ some (none, r)
  | none ↦ elim (best_candidate p) [
    | none ↦ none
    | some c ↦ some (c.runner_id, range c.downloaded.end (add64 c.downloaded.end required))
  ]
]

abbrev pub is_finished : ChunkStatus → Bool
is_finished finished = true
is_finished _ = false

unfoldable pub is_complete : ChunkPlanner → Bool
is_complete p =
    not (is_empty p.chunks)
    && all (λ c. is_finished c.status) (values p.chunks)
    && is_empty (get_available_ranges p)

-- The first available range that is long enough, cut to size.
unfoldable pub first_fit : ℕ → List Range → Option Range
first_fit length [] = none
first_fit length (r ∷ rs) =
    let rest = first_fit length rs in
    if leb length (len r) then some (range r.start (r.start + length)) else rest

abbrev pub try_arrange_chunk_by_length : ChunkPlanner → ℕ → Option Range
try_arrange_chunk_by_length p length = first_fit length (get_available_ranges p)
