-- ===== src/Planner/Valid.antt =====
-- The representation invariant of `ChunkPlanner`, and what it says of a chunk found through the
-- runner map. The children prove that the operations keep it.
pub mod Update
pub mod Steps
pub mod Split
use bolt_load.Prelude.{
  ℕ, ◌+◌, ◌≤◌, ◌<◌, ◌≡◌, refl, ◌⊎◌, inl, inr, Option, none, some, List, ◌∷◌, Result, ok, err, arith,
  u64_mod, ltb, ◌==◌, ◌&&◌, Bool-cases, Option-cases,
}
use bolt_load.OrdMap.{get, insert}
use bolt_load.Planner.Chunk.{ChunkState, range, Error, runner_not_found}
use bolt_load.Planner.State.{ChunkPlanner, new, locate, resize_runner_state}
use bolt_load.Planner.Chain.{
  IsSound, Chain, downloaded_bytes, downloaded_len, get-IsSound, insert-Chain_same,
  downloaded_bytes-insert,
}

-- The runner that a chunk found through the runner map belongs to.
abbrev pub IsOwned : ℕ → Option ChunkState → Type 0
IsOwned id none = ⊥
IsOwned id (some c) = c.runner_id ≡ some id

-- Every runner of the map has a chunk, and it is the runner's own.
abbrev pub IsMapped : List (ℕ × ℕ) → List (ℕ × ChunkState) → Type 0
IsMapped runners chunks =
    (id start : ℕ) → get id runners ≡ some start → IsOwned id (get start chunks)

pub record IsValid (p : ChunkPlanner) : Type 0 where
  pub fits : p.total < u64_mod
  pub chain : Chain 0 p.chunks p.total
  pub counted : p.accepted_bytes ≡ downloaded_bytes p.chunks
  pub mapped : IsMapped p.runner_to_chunk p.chunks

pub new-IsValid : (total : ℕ) → total < u64_mod → IsValid (new total)
unfolding get
new-IsValid total h = record {
  fits = h;
  chain = omega arith;
  counted = refl;
  mapped = λ id start e. absurd (ground arith);
}

-- What `locate` says on a valid planner.
abbrev pub Located : ChunkPlanner → ℕ → Result (ℕ × ChunkState) Error → Type 0
Located p id (err e) = (e ≡ runner_not_found id) × (get id p.runner_to_chunk ≡ none)
Located p id (ok (start, c)) =
    (get id p.runner_to_chunk ≡ some start)
    × (get start p.chunks ≡ some c)
    × (c.runner_id ≡ some id)
    × (start ≡ c.allocated.start)
    × IsSound c
    × (c.allocated.end ≤ p.total)

pub locate-Located : (p : ChunkPlanner) (id : ℕ) → IsValid p → Located p id (locate p id)
unfolding locate
locate-Located p id v = elim (Option-cases (get id p.runner_to_chunk)) [
  | inl e ↦ rw (e, locate) (refl, e)
  | inr (start, e) ↦ found start e (get start p.chunks) refl
]
  where
    found :
        (start : ℕ)
        → get id p.runner_to_chunk ≡ some start
        → (o : Option ChunkState) → get start p.chunks ≡ o
        → Located p id (locate p id)
    found start e none g = absurd (ground (arith, v.mapped id start e))
    found start e (some c) g =
        ground (arith, v.mapped id start e, get-IsSound 0 p.total start p.chunks c v.chain g)

-- To split on where `locate` leads, on a valid planner.
pub locate_cases {ℓ} :
    {P : Type ℓ} (p : ChunkPlanner) (id : ℕ)
    → IsValid p
    → (locate p id ≡ err (runner_not_found id) → get id p.runner_to_chunk ≡ none → P)
    → ((start : ℕ) (c : ChunkState)
        → locate p id ≡ ok (start, c)
        → Located p id (ok (start, c))
        → P)
    → P
locate_cases {P = P} p id v missing found = go (locate p id) refl (locate-Located p id v)
  where
    go : (r : Result (ℕ × ChunkState) Error) → locate p id ≡ r → Located p id r → P
    go (err e) q l = missing (rw (← l.0) q) l.1
    go (ok (start, c)) q l = found start c q l

-- To split on what `resize_runner_state` does to a valid planner: nothing, or a chunk is cut short.
pub resize_cases {ℓ} :
    (P : ChunkPlanner → Type ℓ) (p : ChunkPlanner) (id new_size : ℕ)
    → IsValid p
    → P p
    → ((start : ℕ) (c : ChunkState)
        → Located p id (ok (start, c))
        → c.allocated.start < c.downloaded.end + new_size
        → c.downloaded.end + new_size < c.allocated.end
        → P (record p {
          chunks =
              insert start
                (record c { allocated = range c.allocated.start (c.downloaded.end + new_size) })
                p.chunks;
        }))
    → P (resize_runner_state p id new_size).0
unfolding resize_runner_state
resize_cases P p id new_size v same cut =
    locate_cases p id v (λ q e. rw (q, resize_runner_state) same)
      (λ start c q l.
        let new_end = c.downloaded.end + new_size in
        rw (q, resize_runner_state)
          (elim (Bool-cases (ltb new_end u64_mod)) [
            | inr big ↦ rw big same
            | inl small ↦ rw small (elim (Bool-cases (new_end == c.allocated.end)) [
              | inl there ↦ rw there same
              | inr other ↦
                  rw other
                    (elim (Bool-cases
                      (ltb c.allocated.start new_end && ltb new_end c.allocated.end)) [
                        | inl t ↦ rw t (cut start c l (ground arith) (ground arith))
                        | inr f ↦ rw f same
                      ])
            ])
          ]))
