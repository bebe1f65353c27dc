-- ===== src/Planner/Tests.antt =====
-- Runs of the planner on small inputs, and the planner's theorems at concrete planners.
use bolt_load.Prelude.{
  ℕ, ◌+◌, ◌≤◌, ◌<◌, ◌≡◌, ◌≢◌, refl, true, false, not, ◌&&◌, none, some, List, [], ◌∷◌, ok, err,
  arith, add64, sub64, ltb,
}
use bolt_load.OrdMap.{get, insert, remove, last_before}
use bolt_load.Planner.Chunk.{range, ChunkState, running, chunk_not_found, invalid_resize, shrunk}
use bolt_load.Planner.State.{
  ChunkPlanner, new, locate, allocate_chunk_inner, update_progress, mark_running, mark_finished,
  mark_failed, split_chunk, resize_runner_state, get_runner_state,
}
use bolt_load.Planner.Queries.{
  available_from, get_available_ranges, get_downloaded_ranges, merge_adjacent_ranges, merge_from,
  find_chunk_to_split, is_complete, get_incomplete_states,
}
use bolt_load.Planner.History.{Call, step, steps}
use bolt_load.Planner.Valid.{IsValid}
use bolt_load.Planner.Reach.{step-IsValid, steps-IsValid, steps-new-IsValid, never_chunk_not_found}
use bolt_load.Planner.Accepted.{step-accepted_bounds}
use bolt_load.Planner.Runners.{update_progress_lem}
use bolt_load.Planner.Coverage.{covers, in_ranges, in_available_iff}
use bolt_load.Planner.Release.{mark_failed_lem, split_chunk_lem}
use bolt_load.Planner.Resize.{resize_runner_state_lem, resize_runner_state_grow}
use bolt_load.Planner.Available.{
  find_chunk_to_split-free, find_chunk_to_split-largest, find_chunk_to_split-fits,
}
use bolt_load.Planner.Merge.{HasGaps, merge_adjacent_ranges_lem, total_len}
use bolt_load.Planner.Downloaded.{get_downloaded_ranges_lem, is_complete-covers}
use bolt_load.Planner.Staffed.{get_incomplete_states_total}

-- Runner 1 on 0..600 and runner 2 on 600..1000, each part way through.
abbrev part_way : List Call
part_way =
    Call.allocate (range 0 600) (some 1)
    ∷ Call.allocate (range 600 1000) (some 2)
    ∷ Call.run 1
    ∷ Call.run 2
    ∷ Call.progress 1 200
    ∷ Call.progress 2 100
    ∷ []

abbrev fresh : ChunkPlanner
fresh = record (new 1000) { min_chunk_size = 10; max_chunk_count = none }

sample : ChunkPlanner
unfolding steps step get insert remove last_before allocate_chunk_inner update_progress mark_running
    locate add64 sub64
sample = steps fresh part_way

abbrev first : ChunkState
first = record {
  allocated = range 0 600;
  downloaded = range 0 200;
  runner_id = some 1;
  status = running;
}

sample_state : (sample.accepted_bytes ≡ 300) × (get_runner_state sample 1 ≡ some first)
unfolding sample get_runner_state
sample_state = (refl, refl)

steps-new-IsValid_example : IsValid (steps fresh part_way)
steps-new-IsValid_example = steps-new-IsValid 1000 10 none part_way (omega arith)

sample-IsValid : IsValid sample
unfolding sample
sample-IsValid = steps-new-IsValid 1000 10 none part_way (omega arith)

step-accepted_bounds_example :
    (sample.accepted_bytes ≤ (step sample (Call.progress 1 5000)).accepted_bytes)
    × ((step sample (Call.progress 1 5000)).accepted_bytes ≤ sample.total)
step-accepted_bounds_example = step-accepted_bounds sample (Call.progress 1 5000) sample-IsValid

update_progress_example : (update_progress sample 1 5000).1 ≡ ok (range 200 600)
update_progress_example = (update_progress_lem sample 1 5000 first sample-IsValid sample_state.1).0

-- Runner 1 has failed, after part of its chunk was downloaded.
abbrev fresh_calls : List Call
fresh_calls =
    Call.allocate (range 0 600) (some 1) ∷ Call.run 1 ∷ Call.progress 1 200 ∷ Call.fail 1 ∷ []

never_chunk_not_found_example :
    ((update_progress (steps fresh fresh_calls) 1 5).1 ≢ err (chunk_not_found 1))
    × ((mark_running (steps fresh fresh_calls) 1).1 ≢ err (chunk_not_found 1))
    × ((mark_finished (steps fresh fresh_calls) 1).1 ≢ err (chunk_not_found 1))
    × ((mark_failed (steps fresh fresh_calls) 1).1 ≢ err (chunk_not_found 1))
    × ((split_chunk (steps fresh fresh_calls) 1 5 9).1 ≢ err (chunk_not_found 1))
    × ((resize_runner_state (steps fresh fresh_calls) 1 5).1 ≢ err (chunk_not_found 1))
never_chunk_not_found_example =
    never_chunk_not_found 1000 10 none fresh_calls 1 5 9 1 (steps fresh fresh_calls) (omega arith)
      refl

mark_failed_example : (mark_failed sample 1).1 ≡ ok (range 200 600)
mark_failed_example = (mark_failed_lem sample 1 first sample-IsValid sample_state.1).0

split_chunk_example : (split_chunk sample 1 400 3).1 ≡ ok (range 400 600)
split_chunk_example =
    (split_chunk_lem sample 1 400 3 first sample-IsValid sample_state.1 (omega arith) (omega arith)
      (omega arith)).0

resize_runner_state_example : (resize_runner_state sample 1 100).1 ≡ ok (shrunk 300)
resize_runner_state_example =
    (resize_runner_state_lem sample 1 100 first sample-IsValid sample_state.1 (omega arith)
      (omega arith)).0

resize_runner_state_grow_example :
    resize_runner_state sample 1 500 ≡ (sample, err (invalid_resize 1 500))
resize_runner_state_grow_example =
    resize_runner_state_grow sample 1 500 first sample-IsValid sample_state.1 (omega arith)

-- Runner 2 has failed: 700..1000 is free again.
with_gap : ChunkPlanner
unfolding sample mark_failed step
with_gap = step sample (Call.fail 2)

with_gap-IsValid : IsValid with_gap
unfolding with_gap
with_gap-IsValid = step-IsValid sample (Call.fail 2) sample-IsValid

in_available_example :
    in_ranges 800 (get_available_ranges with_gap)
    ≡ (ltb 800 with_gap.total && not (covers 800 with_gap.chunks))
in_available_example = in_available_iff with_gap 800 with_gap-IsValid

in_available_value : in_ranges 800 (get_available_ranges with_gap) ≡ true
unfolding with_gap available_from
in_available_value = refl

find_chunk_to_split-free_example : (720 < with_gap.total) × (covers 720 with_gap.chunks ≡ false)
unfolding with_gap find_chunk_to_split available_from
find_chunk_to_split-free_example =
    find_chunk_to_split-free with_gap 50 720 (range 700 750) with_gap-IsValid refl refl

find_chunk_to_split-fits_example :
    (start : ℕ) × (find_chunk_to_split with_gap 50 ≡ some (none, range start (start + 50)))
unfolding with_gap available_from
find_chunk_to_split-fits_example = find_chunk_to_split-fits with_gap 50 refl

find_chunk_to_split-largest_example : get_available_ranges sample ≡ []
unfolding sample find_chunk_to_split available_from
find_chunk_to_split-largest_example =
    (find_chunk_to_split-largest sample 50 1 (range 200 250) refl).0

merge_adjacent_ranges_example :
    HasGaps (merge_adjacent_ranges (range 5 9 ∷ range 0 3 ∷ range 3 4 ∷ []))
merge_adjacent_ranges_example =
    (merge_adjacent_ranges_lem (range 5 9 ∷ range 0 3 ∷ range 3 4 ∷ [])).1

get_downloaded_ranges_example : total_len (get_downloaded_ranges sample) ≡ sample.accepted_bytes
get_downloaded_ranges_example = (get_downloaded_ranges_lem sample sample-IsValid).2

get_downloaded_ranges_value : get_downloaded_ranges sample ≡ range 0 200 ∷ range 600 700 ∷ []
unfolding sample get_downloaded_ranges merge_from
get_downloaded_ranges_value = refl

-- Both runners finish.
whole : ChunkPlanner
unfolding sample steps step mark_finished
whole =
    steps sample (Call.progress 1 400 ∷ Call.progress 2 300 ∷ Call.finish 1 ∷ Call.finish 2 ∷ [])

whole-IsValid : IsValid whole
unfolding whole
whole-IsValid =
    steps-IsValid sample
      (Call.progress 1 400 ∷ Call.progress 2 300 ∷ Call.finish 1 ∷ Call.finish 2 ∷ [])
      sample-IsValid

is_complete-covers_example : covers 999 whole.chunks ≡ true
unfolding whole is_complete available_from
is_complete-covers_example = is_complete-covers whole 999 whole-IsValid refl (omega arith)

get_incomplete_states_example : get_incomplete_states (steps (new 1000) part_way) none ≢ none
get_incomplete_states_example = get_incomplete_states_total 1000 part_way none (omega arith)
