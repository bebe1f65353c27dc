-- ===== src/Planner/Runners.antt =====
-- The state of one runner's chunk before and after an operation, and the other runners' chunks.
use bolt_load.Prelude.{
  ℕ, ◌+◌, ◌-◌, ◌<◌, ◌≡◌, ◌≢◌, refl, ◌∙◌, List, none, some, ok, arith, min, leb, if◌then◌else◌,
  u64_mod, Option-cases, inl, inr,
}
use bolt_load.OrdMap.{get, insert, remove, get-insert, get-remove}
use bolt_load.Planner.Chunk.{range, ChunkState, finished}
use bolt_load.Planner.State.{ChunkPlanner, locate, accept, update_progress, get_runner_state}
use bolt_load.Planner.Valid.{IsValid, Located, locate_cases}
use bolt_load.Planner.Valid.Steps.{accept_end, counted_progress}

-- Two runners of the map never share a chunk.
pub mapped_apart :
    (p : ChunkPlanner) (id j start s : ℕ)
    → IsValid p
    → get id p.runner_to_chunk ≡ some start
    → get j p.runner_to_chunk ≡ some s
    → id ≢ j
    → start ≢ s
mapped_apart p id j start s v e f n same =
    ground (arith, v.mapped id start e, v.mapped j s f, Option-cases (get start p.chunks))

-- `locate` and `get_runner_state` find the same chunk.
pub find_runner :
    (p : ChunkPlanner) (id : ℕ) (c : ChunkState)
    → IsValid p
    → get_runner_state p id ≡ some c
    → (start : ℕ) × (locate p id ≡ ok (start, c)) × Located p id (ok (start, c))
unfolding get_runner_state
find_runner p id c v e =
    locate_cases p id v (λ q m. absurd (ground arith))
      (λ start d q l. let same : d ≡ c = ground arith in (start, rw (← same) q, rw (← same) l))

pub runner_state :
    (p : ChunkPlanner) (id start : ℕ)
    → get id p.runner_to_chunk ≡ some start
    → get_runner_state p id ≡ get start p.chunks
unfolding get_runner_state
runner_state p id start e = rw (e, get_runner_state)

pub at_runner :
    (p : ChunkPlanner) (id start : ℕ) (c : ChunkState)
    → get id p.runner_to_chunk ≡ some start
    → get start p.chunks ≡ some c
    → get_runner_state p id ≡ some c
unfolding get_runner_state
at_runner p id start c e f = rw (e, get_runner_state) f

-- A runner that was taken out of the map.
pub removed_runner :
    (p : ChunkPlanner) (id : ℕ) (m : List (ℕ × ℕ))
    → p.runner_to_chunk ≡ remove id m
    → get_runner_state p id ≡ none
unfolding get_runner_state
removed_runner p id m e = rw (e, get_runner_state) (ground (arith, get-remove id id m))

-- The runner whose chunk was replaced.
pub replaced_runner :
    (p : ChunkPlanner) (id start : ℕ) (c : ChunkState) (m : List (ℕ × ChunkState))
    → get id p.runner_to_chunk ≡ some start
    → p.chunks ≡ insert start c m
    → get_runner_state p id ≡ some c
unfolding get_runner_state
replaced_runner p id start c m e f =
    rw (e, get_runner_state) (rw f (ground (arith, get-insert start start c m)))

-- What a change to the chunk of one runner leaves of the others.
pub other_runner :
    (p q : ChunkPlanner) (id j start : ℕ)
    → IsValid p
    → get id p.runner_to_chunk ≡ some start
    → id ≢ j
    → get j q.runner_to_chunk ≡ get j p.runner_to_chunk
    → ((k : ℕ) → start ≢ k → get k p.chunks ≢ none → get k q.chunks ≡ get k p.chunks)
    → get_runner_state q j ≡ get_runner_state p j
unfolding get_runner_state
other_runner p q id j start v e n r same = elim (Option-cases (get j p.runner_to_chunk)) [
  | inl f ↦ rw (r, f, get_runner_state)
  | inr (s, f) ↦
      rw (r, f, get_runner_state)
        (same s (mapped_apart p id j start s v e f n) (λ g. ground (arith, v.mapped j s f)))
]

-- On a valid planner with a chunk for the runner, `update_progress` succeeds: it moves the downloaded
-- end by the smaller of the bytes that arrived and the bytes that were missing, returns the range
-- between the old end and the new, adds its length to `accepted_bytes`, finishes the chunk when it
-- is full and leaves its status otherwise; the other runners' chunks stay as they are.
pub update_progress_lem :
    (p : ChunkPlanner) (id bytes : ℕ) (c : ChunkState)
    → IsValid p
    → get_runner_state p id ≡ some c
    → let moved = min bytes (c.allocated.end - c.downloaded.end) in
      let new_end = c.downloaded.end + moved in
      let (q, result) = update_progress p id bytes in
      (result ≡ ok (range c.downloaded.end new_end))
      × (q.accepted_bytes ≡ p.accepted_bytes + moved)
      × (get_runner_state q id
          ≡ some (record c {
            downloaded = range c.downloaded.start new_end;
            status = if leb c.allocated.end new_end then finished else c.status;
          }))
      × ((j : ℕ) → id ≢ j → get_runner_state q j ≡ get_runner_state p j)
unfolding update_progress
update_progress_lem p id bytes c v e =
    let (start, q, l) = find_runner p id c v e in
    let fits : c.allocated.end < u64_mod = omega (arith, v.fits, l.5) in
    let moved = accept_end c bytes l.4 fits in
    rw (q, update_progress)
      (
        ground (arith, moved),
        omega (arith, moved, counted_progress p id bytes start c v l),
        replaced_runner _ id start (accept c bytes) p.chunks l.0 refl ∙ ground (arith, moved),
        λ j n.
            other_runner p _ id j start v l.0 n refl
              (λ k m _. ground (arith, get-insert k start (accept c bytes) p.chunks)),
      )
