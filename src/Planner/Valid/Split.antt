-- ===== src/Planner/Valid/Split.antt =====
-- Validity under allocating and splitting.
use bolt_load.Prelude.{
  ℕ, ◌≤◌, ◌<◌, ◌≡◌, refl, inl, inr, Option, none, some, ok, arith, Bool-cases, false, leb, ltb,
  ◌||◌,
}
use bolt_load.OrdMap.{get, insert, remove, last_before, get-insert}
use bolt_load.Planner.Chunk.{
  Range, range, ChunkStatus, ChunkState, new_chunk, from_runner_id, running,
}
use bolt_load.Planner.State.{
  ChunkPlanner, allocate_chunk_inner, at_max_chunks, overlaps, map_runner, split_chunk,
}
use bolt_load.Planner.Chain.{
  IsSound, EndsBy, downloaded_bytes-insert, insert-Chain_new, insert-remove, get_clear,
  last_before_cut,
}
use bolt_load.Planner.Valid.{IsValid, IsMapped, Located, locate_cases}
use bolt_load.Planner.Valid.Update.{
  forget-IsValid, insert_free-IsMapped, insert_new-IsMapped, insert_runner-IsMapped,
  remove_runner-IsMapped, replace-IsValid,
}

-- The overlap test finds every overlap.
overlaps-EndsBy :
    (p : ChunkPlanner) (r : Range)
    → overlaps p r ≡ false
    → EndsBy r.start (last_before r.end p.chunks)
overlaps-EndsBy p r h = ground arith

-- A chunk with nothing downloaded, entered where the chain is clear.
insert_new-IsValid :
    (p : ChunkPlanner) (r : Range) (owner : Option ℕ) (status : ChunkStatus)
    → IsValid p
    → r.start < r.end
    → r.end ≤ p.total
    → EndsBy r.start (last_before r.end p.chunks)
    → IsValid (record p {
      chunks = insert r.start (new_chunk r owner status) p.chunks;
      runner_to_chunk = map_runner owner r.start p.runner_to_chunk;
    })
insert_new-IsValid p r owner status v a b e = record {
  fits = v.fits;
  chain =
      insert-Chain_new 0 p.total (new_chunk r owner status) p.chunks v.chain (omega arith)
        (omega arith) b e;
  counted = ground (
    arith,
    v.counted,
    free,
    downloaded_bytes-insert 0 p.total r.start (new_chunk r owner status) p.chunks v.chain,
  );
  mapped = mapped owner;
}
  where
    free : get r.start p.chunks ≡ none
    free = get_clear 0 p.total r.start r.end p.chunks v.chain a e

    mapped :
        (o : Option ℕ)
        → IsMapped
            (map_runner o r.start p.runner_to_chunk)
            (insert r.start (new_chunk r o status) p.chunks)
    mapped none = insert_free-IsMapped p.runner_to_chunk p.chunks v.mapped r.start _ free
    mapped (some id) =
        insert_new-IsMapped p.runner_to_chunk p.chunks v.mapped id r.start _ free refl

pub allocate_chunk_inner-IsValid :
    (p : ChunkPlanner) (r : Range) (owner : Option ℕ) (status : ChunkStatus)
    → IsValid p
    → IsValid (allocate_chunk_inner p r owner status).0
unfolding allocate_chunk_inner
allocate_chunk_inner-IsValid p r owner status v =
    elim (Bool-cases (leb r.end r.start || ltb p.total r.end)) [
      | inl bad ↦ rw bad v
      | inr good ↦ rw good (elim (Bool-cases (at_max_chunks p)) [
        | inl full ↦ rw full v
        | inr room ↦ rw room (elim (Bool-cases (overlaps p r)) [
          | inl taken ↦ rw taken v
          | inr clear ↦ rw clear (
              insert_new-IsValid p r owner status v (ground arith) (ground arith)
                (overlaps-EndsBy p r clear))
        ])
      ])
    ]

-- A runner is taken out of the map and entered again at its chunk.
enter-IsValid :
    (p : ChunkPlanner) (id start : ℕ) (c : ChunkState)
    → IsValid p
    → get start p.chunks ≡ some c
    → c.runner_id ≡ some id
    → IsValid (record p { runner_to_chunk = insert id start (remove id p.runner_to_chunk) })
enter-IsValid p id start c v g r = record {
  fits = v.fits;
  chain = v.chain;
  counted = v.counted;
  mapped =
      insert_runner-IsMapped (remove id p.runner_to_chunk) p.chunks
        (remove_runner-IsMapped p.runner_to_chunk p.chunks v.mapped id) id start c g r;
}

-- The first half of a split: the chunk shrinks to `c'`, and its runner stays.
keep_half-IsValid :
    (p : ChunkPlanner) (id start : ℕ) (c c' : ChunkState)
    → IsValid p
    → Located p id (ok (start, c))
    → IsSound c'
    → c'.downloaded ≡ c.downloaded
    → c'.allocated.end ≤ c.allocated.end
    → c'.runner_id ≡ c.runner_id
    → IsValid (record p {
      chunks = insert start c' p.chunks;
      runner_to_chunk = insert id start (remove id p.runner_to_chunk);
    })
keep_half-IsValid p id start c c' v l s d e r =
    enter-IsValid _ id start c'
      (replace-IsValid p start p.accepted_bytes c c' v l.1 s (ground arith) e r (ground arith))
      (rw get-insert (ground arith)) (ground arith)

-- Both halves.
split-IsValid :
    (p : ChunkPlanner) (id start split_pos new_id : ℕ) (c : ChunkState)
    → IsValid p
    → Located p id (ok (start, c))
    → c.downloaded.end < split_pos
    → split_pos < c.allocated.end
    → IsValid (record p {
      chunks =
          insert split_pos
            (from_runner_id (range split_pos c.allocated.end) (some new_id))
            (insert start (record c { allocated = range start split_pos }) p.chunks);
      runner_to_chunk = insert new_id split_pos (insert id start (remove id p.runner_to_chunk));
    })
split-IsValid p id start split_pos new_id c v l a b =
    insert_new-IsValid _ (range split_pos c.allocated.end) (some new_id) running
      (keep_half-IsValid p id start c _ v l (omega arith) refl (omega arith) refl) b (omega arith)
      (last_before_cut 0 p.total start c _ p.chunks v.chain l.1 (omega arith))

pub split_chunk-IsValid :
    (p : ChunkPlanner) (id split_pos new_id : ℕ)
    → IsValid p
    → IsValid (split_chunk p id split_pos new_id).0
unfolding split_chunk
split_chunk-IsValid p id split_pos new_id v =
    locate_cases p id v (λ q e. rw (q, split_chunk) (forget-IsValid p id v))
      (λ start c q l.
        rw (q, split_chunk)
          (elim (Bool-cases (leb split_pos c.downloaded.end || leb c.allocated.end split_pos)) [
            | inl bad ↦
                rw (bad, insert-remove 0 p.total start c p.chunks v.chain)
                  (keep_half-IsValid p id start c c v l l.4 refl (omega arith) refl)
            | inr good ↦
                rw (good, ← l.3, insert-remove 0 p.total start _ p.chunks v.chain)
                  (split-IsValid p id start split_pos new_id c v l (ground arith) (ground arith))
          ]))
