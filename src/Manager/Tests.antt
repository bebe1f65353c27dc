-- ===== src/Manager/Tests.antt =====
-- runner_manager.rs: a manager with one runner, and the theorems at it.
use bolt_load.Prelude.{
  ℕ, ◌≤◌, ◌≡◌, refl, true, Option, none, some, [], ◌∷◌, Result, ok, arith, ◌+◌, length,
}
use bolt_load.OrdMap.{get, insert, last_before}
use bolt_load.Adapter.Error.{Text}
use bolt_load.Ids.Generator.{clear_bits}
use bolt_load.Planner.Chunk.{range, ChunkState, new_chunk, pending}
use bolt_load.Planner.State.{get_runner_state, allocate_chunk_inner}
use bolt_load.Strategy.Sampler
use bolt_load.Strategy.Sampler.{RunnerOutcomeSampler}
use bolt_load.Manager.Types
use bolt_load.Manager.Types.{Bytes, DownloadedChunk, RunnerManager, RunnerTick, ResizeError}
use bolt_load.Manager.State.{spawn_runner_with_chunk, resize_runner}
use bolt_load.Manager.Lifecycle.{item, nothing, started}
use bolt_load.Manager.Data.{truncate, or_zero, handle_data_frame, poll_tick}
use bolt_load.Manager.Consistent.{IsConsistent, has, new-IsConsistent}
use bolt_load.Manager.Granted.{IsAnswered, spawn_runner_with_chunk_lem}
use bolt_load.Manager.Resize.{IsResized, resize_runner_lem}
use bolt_load.Manager.Poll.{handle_data_frame_lem, poll_tick_total}

abbrev sampler : RunnerOutcomeSampler
sampler = Sampler.new 10 5

abbrev fresh : RunnerManager
fresh = Types.new 100 2 sampler

fresh-IsConsistent : IsConsistent fresh
fresh-IsConsistent = new-IsConsistent 100 2 sampler (omega arith) (omega arith)

abbrev rx : ℕ → Result (ℕ × ℕ) Text
rx id = ok (7, 8)

abbrev one : RunnerManager
one = (spawn_runner_with_chunk fresh (range 0 50) rx).0

spawn_runner_with_chunk_example :
    IsAnswered fresh (range 0 50) rx (spawn_runner_with_chunk fresh (range 0 50) rx)
spawn_runner_with_chunk_example =
    spawn_runner_with_chunk_lem fresh (range 0 50) rx fresh-IsConsistent

one-IsConsistent : IsConsistent one
one-IsConsistent = (spawn_runner_with_chunk_lem fresh (range 0 50) rx fresh-IsConsistent).0

abbrev chunk : ChunkState
chunk = new_chunk (range 0 50) (some 0) pending

one_facts :
    (get_runner_state one.chunk_planner 0 ≡ some chunk)
    × (has 0 one.lifecycle_aggregator ≡ true)
    × (one.runner_outcome_sampler.time_window ≡ 10)
unfolding spawn_runner_with_chunk get_runner_state get clear_bits allocate_chunk_inner last_before
    insert
one_facts = (refl, refl, refl)

resize_runner_example :
    (m' : RunnerManager) × (result : Result (Unit {0}) ResizeError) × (resize_runner one 0 20
      ≡ some (m', result))
    × IsConsistent m'
    × IsResized one 0 20 m' result
resize_runner_example = resize_runner_lem one 0 20 one-IsConsistent

abbrev frame : Bytes
frame = 1 ∷ 2 ∷ 3 ∷ []

poll_tick_total_example :
    (m' : RunnerManager) × (tick : Option RunnerTick) × (poll_tick one true
        (item 0 started)
        nothing
        10
      ≡ some (m', tick))
    × IsConsistent m'
    × (tick ≡ none → m' ≡ one)
poll_tick_total_example =
    poll_tick_total one true (item 0 started) nothing 10 one-IsConsistent
      (one_facts.1, ground (arith, one_facts.0)) tt (omega (arith, one_facts.2))

handle_data_frame_example :
    (m' : RunnerManager) × (d : DownloadedChunk) × (handle_data_frame one 0 frame ≡ some (m', d))
    × (d.range ≡ range 0 3)
    × (3 ≤ 50)
    × (d.bytes ≡ truncate 3 frame)
    × (length d.bytes ≡ 3)
    × (get_runner_state m'.chunk_planner 0 ≡ some (record chunk { downloaded = range 0 3 }))
    × (or_zero (get 0 m'.meters) ≡ or_zero (get 0 one.meters) + 3)
    × IsConsistent m'
handle_data_frame_example = handle_data_frame_lem one 0 frame chunk one-IsConsistent one_facts.0
