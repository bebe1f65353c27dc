-- ===== src/Planner/Release.antt =====
-- `mark_failed`, `split_chunk` and `resize_runner_state`: which offsets they give up, what becomes of
-- the runners, and which errors are possible.
use bolt_load.Prelude.{
  ℕ, ◌<◌, ◌≡◌, ◌≢◌, refl, false, not, ◌&&◌, ◌||◌, none, some, ok, arith, leb, ◌==◌, Bool-cases, inl,
  inr,
}
use bolt_load.OrdMap.{get, insert, remove, get-insert, get-remove}
use bolt_load.Planner.Chunk.{range, ChunkState, running, new_chunk}
use bolt_load.Planner.State.{
  ChunkPlanner, get_runner_state, mark_failed, split_chunk, keep_downloaded,
}
use bolt_load.Planner.Chain.{Chain, insert-remove, get_inside, insert-Chain_same}
use bolt_load.Planner.Valid.{IsValid}
use bolt_load.Planner.Coverage.{within, covers, covers-insert, covers-remove, within_get}
use bolt_load.Planner.Runners.{find_runner, other_runner, removed_runner, at_runner}

-- On a valid planner with a chunk `c` for the runner, `mark_failed` succeeds and returns the part of
-- the chunk that was not downloaded. Afterwards the runner is unknown, exactly the offsets of the
-- returned range are no longer covered, no accepted byte is lost, and the other runners' chunks stay
-- as they are.
pub mark_failed_lem :
    (p : ChunkPlanner) (id : ℕ) (c : ChunkState)
    → IsValid p
    → get_runner_state p id ≡ some c
    → let (q, result) = mark_failed p id in
      let lost = range c.downloaded.end c.allocated.end in
      (result ≡ ok lost)
      × (get_runner_state q id ≡ none)
      × ((x : ℕ) → covers x q.chunks ≡ (covers x p.chunks && not (within x lost)))
      × (q.accepted_bytes ≡ p.accepted_bytes)
      × ((j : ℕ) → id ≢ j → get_runner_state q j ≡ get_runner_state p j)
unfolding mark_failed
mark_failed_lem p id c v e =
    let (start, q, l) = find_runner p id c v e in
    rw (q, mark_failed)
      (elim (Bool-cases (c.downloaded.start == c.downloaded.end)) [
        | inl nothing ↦ rw nothing (
          ground arith,
          removed_runner _ id p.runner_to_chunk refl,
          (λ x. ground (arith, covers-remove 0 p.total start x p.chunks v.chain)),
          refl,
          (λ j n.
              other_runner p _ id j start v l.0 n
                (ground (arith, get-remove j id p.runner_to_chunk))
                (λ k m _. ground (arith, get-remove k start p.chunks))),
        )
        | inr some_yet ↦
            rw (some_yet, insert-remove 0 p.total start (keep_downloaded c) p.chunks v.chain)
              (
                refl,
                removed_runner _ id p.runner_to_chunk refl,
                (λ x. ground (
                  arith,
                  covers-insert 0 p.total start x (keep_downloaded c) p.chunks v.chain,
                  within_get start x p.chunks,
                )),
                refl,
                (λ j n.
                    other_runner p _ id j start v l.0 n
                      (ground (arith, get-remove j id p.runner_to_chunk))
                      (λ k m _. ground (arith, get-insert k start (keep_downloaded c) p.chunks))),
              )
      ])

-- On a valid planner with a chunk `c` for the runner, a split strictly inside the part that is not
-- downloaded succeeds and returns the second part. Afterwards the runner has the first part with
-- all that it had downloaded, a new runner (one other than the first) has the second with nothing downloaded, every
-- offset is covered as before, no accepted byte is lost, and the chunks of runners other than these
-- two stay as they are.
pub split_chunk_lem :
    (p : ChunkPlanner) (id pos new_id : ℕ) (c : ChunkState)
    → IsValid p
    → get_runner_state p id ≡ some c
    → c.downloaded.end < pos
    → pos < c.allocated.end
    → id ≢ new_id
    → let (q, result) = split_chunk p id pos new_id in
      let second = range pos c.allocated.end in
      (result ≡ ok second)
      × (get_runner_state q id ≡ some (record c { allocated = range c.allocated.start pos }))
      × (get_runner_state q new_id ≡ some (new_chunk second (some new_id) running))
      × ((x : ℕ) → covers x q.chunks ≡ covers x p.chunks)
      × (q.accepted_bytes ≡ p.accepted_bytes)
      × ((j : ℕ) → id ≢ j → new_id ≢ j → get_runner_state q j ≡ get_runner_state p j)
unfolding split_chunk
split_chunk_lem p id pos new_id c v e a b n =
    let (start, q, l) = find_runner p id c v e in
    let good : (leb pos c.downloaded.end || leb c.allocated.end pos) ≡ false = ground arith in
    let c' : ChunkState = record c { allocated = range start pos } in
    let half = insert start c' p.chunks in
    let half-Chain : Chain 0 half p.total =
      insert-Chain_same 0 p.total start c c' p.chunks v.chain l.1 (omega arith) refl
        (omega arith) in
    let free : get pos p.chunks ≡ none =
      get_inside 0 p.total start pos p.chunks c v.chain l.1 (omega arith) b in
    let other = new_chunk (range pos c.allocated.end) (some new_id) running in
    let runners = insert id start (remove id p.runner_to_chunk) in
    rw (q, split_chunk, good, ← l.3, insert-remove 0 p.total start c' p.chunks v.chain)
      (
        refl,
        at_runner _ id start c'
            (ground (
              arith,
              get-insert id new_id pos runners,
              get-insert id id start (remove id p.runner_to_chunk),
            ))
            (ground (arith, get-insert start pos other half, get-insert start start c' p.chunks)),
        at_runner _ new_id pos other (ground (arith, get-insert new_id new_id pos runners))
            (ground (arith, get-insert pos pos other half)),
        λ x. ground (
          arith,
          covers-insert 0 p.total pos x other half half-Chain,
          covers-insert 0 p.total start x c' p.chunks v.chain,
          get-insert pos start c' p.chunks,
          within_get start x p.chunks,
        ),
        refl,
        λ j m k.
            other_runner p _ id j start v l.0 m
              (ground (
                arith,
                get-insert j new_id pos runners,
                get-insert j id start (remove id p.runner_to_chunk),
                get-remove j id p.runner_to_chunk,
              ))
              (λ i s some_chunk.
                ground (arith, get-insert i pos other half, get-insert i start c' p.chunks)),
      )
