-- ===== src/Planner/Assigned.antt =====
-- chunk_planner.rs: the runners' chunks after `mark_running`, `mark_finished` and an allocation.
use bolt_load.Prelude.{
  ℕ, ◌≡◌, ◌≢◌, refl, Bool, true, false, ◌||◌, none, some, ok, arith, ltb, leb, Bool-cases,
  Option-cases, ◌⊎◌, inl, inr,
}
use bolt_load.OrdMap.{get, insert, last_before, get-insert, get-remove}
use bolt_load.Planner.Chunk.{Range, ChunkState, running, pending, finished, new_chunk}
use bolt_load.Planner.State.{
  ChunkPlanner, get_runner_state, mark_running, mark_finished, allocate_chunk_inner,
  allocate_pending_chunk, at_max_chunks, overlaps,
}
use bolt_load.Planner.Chain.{EndsBy, get_clear}
use bolt_load.Planner.Valid.{IsValid}
use bolt_load.Planner.Runners.{
  find_runner, other_runner, removed_runner, at_runner, replaced_runner,
}

pub mark_running_lem :
    (p : ChunkPlanner) (id : ℕ) (c : ChunkState)
    → IsValid p
    → get_runner_state p id ≡ some c
    → let (q, result) = mark_running p id in
      (result ≡ ok tt)
      × (get_runner_state q id ≡ some (record c { status = running }))
      × ((j : ℕ) → id ≢ j → get_runner_state q j ≡ get_runner_state p j)
unfolding mark_running
mark_running_lem p id c v e =
    let (start, q, l) = find_runner p id c v e in
    let c' : ChunkState = record c { status = running } in
    rw (q, mark_running)
      (
        refl,
        replaced_runner _ id start c' p.chunks l.0 refl,
        λ j n.
            other_runner p _ id j start v l.0 n refl
              (λ k m _. ground (arith, get-insert k start c' p.chunks)),
      )

pub mark_finished_lem :
    (p : ChunkPlanner) (id : ℕ) (c : ChunkState)
    → IsValid p
    → get_runner_state p id ≡ some c
    → let (q, result) = mark_finished p id in
      (result ≡ ok tt)
      × (get_runner_state q id ≡ none)
      × ((j : ℕ) → id ≢ j → get_runner_state q j ≡ get_runner_state p j)
unfolding mark_finished
mark_finished_lem p id c v e =
    let (start, q, l) = find_runner p id c v e in
    let c' : ChunkState = record c { status = finished } in
    rw (q, mark_finished)
      (
        refl,
        removed_runner _ id p.runner_to_chunk refl,
        λ j n.
            other_runner p _ id j start v l.0 n (ground (arith, get-remove j id p.runner_to_chunk))
              (λ k m _. ground (arith, get-insert k start c' p.chunks)),
      )

-- An allocation that succeeds gives the runner the range as a pending chunk, and leaves the chunks of
-- the other runners.
abbrev pub IsAllocated : ChunkPlanner → Range → ℕ → ChunkPlanner × Bool → Type 0
IsAllocated p r id (q, fits) =
    ((fits ≡ false) × (q ≡ p))
    ⊎ ((fits ≡ true)
        × (get_runner_state q id ≡ some (new_chunk r (some id) pending))
        × ((j : ℕ) → id ≢ j → get_runner_state q j ≡ get_runner_state p j))

inserted_runner :
    (p : ChunkPlanner) (r : Range) (id j : ℕ)
    → IsValid p
    → get r.start p.chunks ≡ none
    → id ≢ j
    → get_runner_state
        (record p {
          chunks = insert r.start (new_chunk r (some id) pending) p.chunks;
          runner_to_chunk = insert id r.start p.runner_to_chunk;
        })
        j
      ≡ get_runner_state p j
unfolding get_runner_state
inserted_runner p r id j v free n = elim (Option-cases (get j p.runner_to_chunk)) [
  | inl e ↦ ground (arith, get-insert j id r.start p.runner_to_chunk, e)
  | inr (s, e) ↦ ground (
    arith,
    e,
    v.mapped j s e,
    get-insert j id r.start p.runner_to_chunk,
    get-insert s r.start (new_chunk r (some id) pending) p.chunks,
  )
]

pub allocate_pending_chunk_lem :
    (p : ChunkPlanner) (r : Range) (id : ℕ)
    → IsValid p
    → IsAllocated p r id (allocate_pending_chunk p r id)
unfolding allocate_chunk_inner
allocate_pending_chunk_lem p r id v = elim (Bool-cases (leb r.end r.start || ltb p.total r.end)) [
  | inl bad ↦ rw bad (inl (refl, refl))
  | inr good ↦ rw good (elim (Bool-cases (at_max_chunks p)) [
    | inl full ↦ rw full (inl (refl, refl))
    | inr room ↦ rw room (elim (Bool-cases (overlaps p r)) [
      | inl taken ↦ rw taken (inl (refl, refl))
      | inr clear ↦
          let ends : EndsBy r.start (last_before r.end p.chunks) = ground arith in
          let free = get_clear 0 p.total r.start r.end p.chunks v.chain (ground arith) ends in
          let c = new_chunk r (some id) pending in
          rw clear (
            inr (
              refl,
              at_runner _ id r.start c (ground (arith, get-insert id id r.start p.runner_to_chunk))
                  (ground (arith, get-insert r.start r.start c p.chunks)),
              λ j n. inserted_runner p r id j v free n,
            ))
    ])
  ])
]
