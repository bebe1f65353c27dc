-- ===== src/Planner/Valid/Update.antt =====
-- What the updates that the operations are made of do to the runner map and to the invariant:
-- replacing a chunk under its key, taking out a runner, entering one.
use bolt_load.Prelude.{ℕ, ◌+◌, ◌≤◌, ◌≡◌, ◌≢◌, none, some, List, arith}
use bolt_load.OrdMap.{get, insert, remove, get-insert, get-remove}
use bolt_load.Planner.Chunk.{ChunkState}
use bolt_load.Planner.State.{ChunkPlanner, forget}
use bolt_load.Planner.Chain.{
  IsSound, downloaded_len, insert-Chain_same, downloaded_bytes-insert, downloaded_bytes-le,
}
use bolt_load.Planner.Valid.{IsMapped, IsValid}

module _ (runners : List (ℕ × ℕ)) (chunks : List (ℕ × ChunkState))
    (m : IsMapped runners chunks) where
  -- Another runner's chunk may be anything, as long as the runner stays the same.
  pub insert_chunk-IsMapped :
      (start : ℕ) (c c' : ChunkState)
      → get start chunks ≡ some c
      → c'.runner_id ≡ c.runner_id
      → IsMapped runners (insert start c' chunks)
  insert_chunk-IsMapped start c c' g r id s e =
      rw (get-insert s start c' chunks) (ground (arith, m id s e))

  pub remove_runner-IsMapped : (id : ℕ) → IsMapped (remove id runners) chunks
  remove_runner-IsMapped id j s e = ground (arith, m j s, get-remove j id runners)

  pub insert_runner-IsMapped :
      (id start : ℕ) (c : ChunkState)
      → get start chunks ≡ some c
      → c.runner_id ≡ some id
      → IsMapped (insert id start runners) chunks
  insert_runner-IsMapped id start c g r j s e = ground (arith, m j s, get-insert j id start runners)

  -- With its runner taken out, a chunk may change or go.
  pub release-IsMapped :
      (id start : ℕ) (c : ChunkState) (chunks' : List (ℕ × ChunkState))
      → get start chunks ≡ some c
      → c.runner_id ≡ some id
      → ((k : ℕ) → start ≢ k → get k chunks' ≡ get k chunks)
      → IsMapped (remove id runners) chunks'
  release-IsMapped id start c chunks' g r same j s e =
      ground (arith, m j s, get-remove j id runners, same s)

  -- A chunk under a new key, without a runner.
  pub insert_free-IsMapped :
      (start : ℕ) (c : ChunkState)
      → get start chunks ≡ none
      → IsMapped runners (insert start c chunks)
  insert_free-IsMapped start c g j s e = rw (get-insert s start c chunks) (ground (arith, m j s e))

  -- A chunk under a new key, and its runner.
  pub insert_new-IsMapped :
      (id start : ℕ) (c : ChunkState)
      → get start chunks ≡ none
      → c.runner_id ≡ some id
      → IsMapped (insert id start runners) (insert start c chunks)
  insert_new-IsMapped id start c g r j s e =
      rw (get-insert s start c chunks) (ground (arith, m j s, get-insert j id start runners))

-- A chunk is replaced by one that covers no more and has the same runner, and the count follows.
pub replace-IsValid :
    (p : ChunkPlanner) (start accepted : ℕ) (c c' : ChunkState)
    → IsValid p
    → get start p.chunks ≡ some c
    → IsSound c'
    → c'.allocated.start ≡ start
    → c'.allocated.end ≤ c.allocated.end
    → c'.runner_id ≡ c.runner_id
    → accepted + downloaded_len c ≡ p.accepted_bytes + downloaded_len c'
    → IsValid (record p { chunks = insert start c' p.chunks; accepted_bytes = accepted })
replace-IsValid p start accepted c c' v g s e l r n = record {
  fits = v.fits;
  chain = insert-Chain_same 0 p.total start c c' p.chunks v.chain g s e l;
  counted = ground (arith, downloaded_bytes-insert 0 p.total start c' p.chunks v.chain);
  mapped = insert_chunk-IsMapped p.runner_to_chunk p.chunks v.mapped start c c' g r;
}

-- The count and what a replaced chunk adds to it stay within the total.
pub replace-le-total :
    (p : ChunkPlanner) (start : ℕ) (c c' : ChunkState)
    → IsValid p
    → get start p.chunks ≡ some c
    → IsSound c'
    → c'.allocated.start ≡ start
    → c'.allocated.end ≤ c.allocated.end
    → p.accepted_bytes + downloaded_len c' ≤ p.total + downloaded_len c
replace-le-total p start c c' v g s e l = ground (
  arith,
  v.counted,
  downloaded_bytes-insert 0 p.total start c' p.chunks v.chain,
  downloaded_bytes-le 0 p.total (insert start c' p.chunks)
      (insert-Chain_same 0 p.total start c c' p.chunks v.chain g s e l),
)

pub forget-IsValid : (p : ChunkPlanner) (id : ℕ) → IsValid p → IsValid (forget p id)
forget-IsValid p id v = record {
  fits = v.fits;
  chain = v.chain;
  counted = v.counted;
  mapped = remove_runner-IsMapped p.runner_to_chunk p.chunks v.mapped id;
}
