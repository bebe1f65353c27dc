-- ===== src/Planner/Resize.antt =====
-- `resize_runner_state`: what a chunk gives up, and which resizes are refused.
use bolt_load.Prelude.{
  ℕ, ◌+◌, ◌-◌, ◌<◌, ◌≡◌, ◌≢◌, refl, true, false, not, ◌&&◌, some, ok, err, arith, ltb, ◌==◌,
  u64_mod, sub64-eq_of_le,
}
use bolt_load.OrdMap.{get-insert}
use bolt_load.Planner.Chunk.{range, ChunkState, invalid_resize, shrunk}
use bolt_load.Planner.State.{ChunkPlanner, get_runner_state, resize_runner_state}
use bolt_load.Planner.Valid.{IsValid}
use bolt_load.Planner.Coverage.{within, covers, covers-insert, within_get}
use bolt_load.Planner.Runners.{find_runner, other_runner, replaced_runner}

-- On a valid planner with a chunk `c` for the runner, a resize that moves the end of the chunk down,
-- to `size` bytes past the downloaded end and past the chunk's start, succeeds. It reports the new
-- length of the chunk; the runner keeps its chunk up to the new end with all that it had downloaded,
-- exactly the offsets from the new end on are no longer covered, no accepted byte is lost, and the
-- other runners' chunks stay as they are.
pub resize_runner_state_lem :
    (p : ChunkPlanner) (id size : ℕ) (c : ChunkState)
    → IsValid p
    → get_runner_state p id ≡ some c
    → c.allocated.start < c.downloaded.end + size
    → c.downloaded.end + size < c.allocated.end
    → let new_end = c.downloaded.end + size in
      let (q, result) = resize_runner_state p id size in
      (result ≡ ok (shrunk (new_end - c.allocated.start)))
      × (get_runner_state q id ≡ some (record c { allocated = range c.allocated.start new_end }))
      × ((x : ℕ)
          → covers x q.chunks
            ≡ (covers x p.chunks && not (within x (range new_end c.allocated.end))))
      × (q.accepted_bytes ≡ p.accepted_bytes)
      × ((j : ℕ) → id ≢ j → get_runner_state q j ≡ get_runner_state p j)
unfolding resize_runner_state
resize_runner_state_lem p id size c v e a b =
    let (start, q, l) = find_runner p id c v e in
    let new_end = c.downloaded.end + size in
    let c' : ChunkState = record c { allocated = range c.allocated.start new_end } in
    let small : ltb new_end u64_mod ≡ true = ground (arith, v.fits) in
    let other : (new_end == c.allocated.end) ≡ false = ground arith in
    let inside : (ltb c.allocated.start new_end && ltb new_end c.allocated.end) ≡ true =
      ground arith in
    rw (q, resize_runner_state, small, other, inside)
      (
        ground (arith, v.fits, sub64-eq_of_le new_end c.allocated.start),
        replaced_runner _ id start c' p.chunks l.0 refl,
        λ x. ground (
          arith,
          covers-insert 0 p.total start x c' p.chunks v.chain,
          within_get start x p.chunks,
        ),
        refl,
        λ j n.
            other_runner p _ id j start v l.0 n refl
              (λ k m _. ground (arith, get-insert k start c' p.chunks)),
      )

-- On a valid planner with a chunk `c` for the runner, a resize past the chunk's end is refused, also
-- where the new end does not fit into 64 bits, and changes nothing.
pub resize_runner_state_grow :
    (p : ChunkPlanner) (id size : ℕ) (c : ChunkState)
    → IsValid p
    → get_runner_state p id ≡ some c
    → c.allocated.end < c.downloaded.end + size
    → resize_runner_state p id size ≡ (p, err (invalid_resize id size))
unfolding resize_runner_state
resize_runner_state_grow p id size c v e a =
    let (start, q, l) = find_runner p id c v e in rw (q, resize_runner_state) (ground arith)
