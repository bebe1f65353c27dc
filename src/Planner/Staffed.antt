-- ===== src/Planner/Staffed.antt =====
-- The runners of the running chunks, and the `expect` of `get_incomplete_states`.
use bolt_load.Prelude.{
  ℕ, ◌≡◌, ◌≢◌, refl, true, Option, none, some, List, [], ◌∷◌, arith, is_some, u64_mod, Bool-cases,
  ◌==◌, ◌||◌, leb, inl, inr, ◌<◌,
}
use bolt_load.OrdMap.{get, insert, remove, values}
use bolt_load.Planner.Chunk.{Range, ChunkState, range, pending, new_chunk, new_idle, from_runner_id}
use bolt_load.Planner.State.{
  ChunkPlanner, new, allocate_chunk, allocate_chunk_inner, update_progress, mark_running,
  mark_finished, mark_failed, split_chunk, accept, keep_downloaded,
}
use bolt_load.Planner.Queries.{is_running, incomplete_states, get_incomplete_states}
use bolt_load.Planner.History.{Call, step, steps}
use bolt_load.Planner.Valid.{IsValid, locate_cases, resize_cases, new-IsValid}
use bolt_load.Planner.Reach.{step-IsValid}

abbrev pub HasRunner : ChunkState → Type 0
HasRunner c = is_running c.status ≡ true → is_some c.runner_id ≡ true

abbrev pub IsStaffed : List (ℕ × ChunkState) → Type 0
IsStaffed [] = Unit {0}
IsStaffed ((k, c) ∷ m) = HasRunner c × IsStaffed m

insert-IsStaffed :
    (k : ℕ) (c : ChunkState) (m : List (ℕ × ChunkState))
    → HasRunner c
    → IsStaffed m
    → IsStaffed (insert k c m)
unfolding insert
insert-IsStaffed k c [] h s = (h, tt)
insert-IsStaffed k c ((j, d) ∷ m) h s = ground (arith, insert-IsStaffed k c m h s.1)

remove-IsStaffed : (k : ℕ) (m : List (ℕ × ChunkState)) → IsStaffed m → IsStaffed (remove k m)
unfolding remove
remove-IsStaffed k [] s = tt
remove-IsStaffed k ((j, d) ∷ m) s = ground (arith, remove-IsStaffed k m s.1)

get-HasRunner :
    (k : ℕ) (c : ChunkState) (m : List (ℕ × ChunkState))
    → IsStaffed m
    → get k m ≡ some c
    → HasRunner c
unfolding get
get-HasRunner k c [] s e = absurd (ground arith)
get-HasRunner k c ((j, d) ∷ m) s e = ground (arith, get-HasRunner k c m s.1)

allocate_chunk-IsStaffed :
    (p : ChunkPlanner) (r : Range) (owner : Option ℕ)
    → IsStaffed p.chunks
    → IsStaffed (allocate_chunk p r owner).0.chunks
unfolding allocate_chunk_inner
allocate_chunk-IsStaffed p r none s = ground (arith, insert-IsStaffed r.start (new_idle r) p.chunks)
allocate_chunk-IsStaffed p r (some id) s =
    ground (arith, insert-IsStaffed r.start (new_chunk r (some id) pending) p.chunks)

-- A call keeps every running chunk with a runner.
step-IsStaffed :
    (p : ChunkPlanner) (c : Call) → IsValid p → IsStaffed p.chunks → IsStaffed (step p c).chunks
unfolding step update_progress mark_running mark_finished mark_failed split_chunk
step-IsStaffed p (Call.allocate r owner) v s = allocate_chunk-IsStaffed p r owner s
step-IsStaffed p (Call.progress id bytes) v s =
    locate_cases p id v (λ q _. rw (q, IsStaffed, step, update_progress) s)
      (λ start c q l.
        rw (q, IsStaffed, step, update_progress)
          (insert-IsStaffed start (accept c bytes) p.chunks (λ _. ground arith) s))
step-IsStaffed p (Call.resize id size) v s =
    resize_cases (λ q. IsStaffed q.chunks) p id size v s
      λ start c l a b. insert-IsStaffed start _ p.chunks (λ _. ground arith) s
step-IsStaffed p (Call.run id) v s =
    locate_cases p id v (λ q _. rw (q, IsStaffed, step, mark_running) s)
      (λ start c q l.
        rw (q, IsStaffed, step, mark_running)
          (insert-IsStaffed start _ p.chunks (λ _. ground arith) s))
step-IsStaffed p (Call.finish id) v s =
    locate_cases p id v (λ q _. rw (q, IsStaffed, step, mark_finished) s)
      (λ start c q l.
        rw (q, IsStaffed, step, mark_finished)
          (insert-IsStaffed start _ p.chunks (λ _. ground arith) s))
step-IsStaffed p (Call.fail id) v s =
    locate_cases p id v (λ q _. rw (q, IsStaffed, step, mark_failed) s)
      (λ start c q l.
        let rest = remove-IsStaffed start p.chunks s in
        rw (q, IsStaffed, step, mark_failed)
          (elim (Bool-cases (c.downloaded.start == c.downloaded.end)) [
            | inl e ↦ rw (e, IsStaffed) rest
            | inr f ↦
                rw (f, IsStaffed)
                  (insert-IsStaffed start (keep_downloaded c) (remove start p.chunks) (λ e. cc)
                    rest)
          ]))
step-IsStaffed p (Call.split id pos new_id) v s =
    locate_cases p id v (λ q _. rw (q, IsStaffed, step, split_chunk) s)
      (λ start c q l.
        let rest = remove-IsStaffed start p.chunks s in
        let first : ChunkState = record c { allocated = range c.allocated.start pos } in
        rw (q, IsStaffed, step, split_chunk)
          (elim (Bool-cases (leb pos c.downloaded.end || leb c.allocated.end pos)) [
            | inl bad ↦
                rw (bad, IsStaffed)
                  (insert-IsStaffed start c (remove start p.chunks) (λ _. ground arith) rest)
            | inr good ↦
                rw (good, IsStaffed)
                  (insert-IsStaffed pos (from_runner_id (range pos c.allocated.end) (some new_id)) _
                    (λ _. refl)
                    (insert-IsStaffed c.allocated.start first (remove start p.chunks)
                      (λ _. ground arith) rest))
          ]))

steps-IsStaffed :
    (p : ChunkPlanner) (cs : List Call)
    → IsValid p
    → IsStaffed p.chunks
    → IsStaffed (steps p cs).chunks
unfolding steps
steps-IsStaffed p [] v s = s
steps-IsStaffed p (c ∷ cs) v s =
    steps-IsStaffed (step p c) cs (step-IsValid p c v) (step-IsStaffed p c v s)

incomplete_states_total :
    (threshold : ℕ) (m : List (ℕ × ChunkState))
    → IsStaffed m
    → incomplete_states threshold (values m) ≢ none
unfolding incomplete_states
incomplete_states_total threshold [] s = λ e. cc
incomplete_states_total threshold ((k, c) ∷ m) s =
    ground (arith, incomplete_states_total threshold m s.1)

-- On every planner that a sequence of calls reaches from a new one (for a total below 2 ^ 64),
-- `get_incomplete_states` does not panic: each running chunk that it lists has a runner.
pub get_incomplete_states_total :
    (total : ℕ) (cs : List Call) (min_size : Option ℕ)
    → total < u64_mod
    → get_incomplete_states (steps (new total) cs) min_size ≢ none
unfolding get_incomplete_states
get_incomplete_states_total total cs min_size h =
    incomplete_states_total _ (steps (new total) cs).chunks
      (steps-IsStaffed (new total) cs (new-IsValid total h) tt)
