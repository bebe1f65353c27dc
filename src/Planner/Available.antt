-- ===== src/Planner/Available.antt =====
-- `find_chunk_to_split` and `try_arrange_chunk_by_length`: what they suggest.
use bolt_load.Prelude.{
  any, All, ◌⊎◌, ltb→lt, ℕ, ◌+◌, ◌≤◌, ◌<◌, ◌≡◌, refl, Bool, true, false, ◌||◌, Option, none, some,
  List, [], ◌∷◌, arith, ltb, leb, Bool-cases, inl, inr, filter,
}
use bolt_load.OrdMap.{values}
use bolt_load.Planner.Chunk.{Range, range, ChunkState, remaining}
use bolt_load.Planner.State.{ChunkPlanner}
use bolt_load.Planner.Queries.{
  len, get_available_ranges, pick_available, longer, find_chunk_to_split, best_candidate,
  max_by_remaining, is_candidate,
}
use bolt_load.Planner.Valid.{IsValid}
use bolt_load.Planner.Coverage.{within, covers, in_ranges, in_available_iff}

abbrev within_option : ℕ → Option Range → Bool
within_option x none = false
within_option x (some r) = within x r

abbrev IsAtMost : Option ChunkState → ℕ → Type 0
IsAtMost none n = Unit {0}
IsAtMost (some c) n = remaining c ≤ n

-- What is picked lies in the best range so far or in a range of the list.
pick_available-within :
    (required x : ℕ) (best : Option Range) (rs : List Range) (r : Range)
    → pick_available required best rs ≡ some r
    → within x r ≡ true
    → (within_option x best || in_ranges x rs) ≡ true
unfolding pick_available
pick_available-within required x none [] r e w = absurd (ground arith)
pick_available-within required x (some best) [] r e w = ground arith
pick_available-within required x none (s ∷ rs) r e w =
    ground (arith, pick_available-within required x (some s) rs r)
pick_available-within required x (some best) (s ∷ rs) r e w =
    ground (arith, pick_available-within required x (longer (some best) s) rs r)

-- Where the search picks nothing there is nothing to pick from.
pick_available-none :
    (required : ℕ) (best : Option Range) (rs : List Range)
    → pick_available required best rs ≡ none
    → (best ≡ none) × (rs ≡ [])
unfolding pick_available
pick_available-none required best [] e = (e, refl)
pick_available-none required none (s ∷ rs) e =
    ground (arith, pick_available-none required (some s) rs)
pick_available-none required (some best) (s ∷ rs) e =
    ground (arith, pick_available-none required (longer (some best) s) rs)

-- If some range is long enough, what is picked has exactly the required length.
pick_available-fits :
    (required : ℕ) (best : Option Range) (rs : List Range) (r : Range)
    → any (λ s. leb required (len s)) rs ≡ true
    → pick_available required best rs ≡ some r
    → r.end ≡ r.start + required
unfolding pick_available
pick_available-fits required best [] r a e = cc
pick_available-fits required best (s ∷ rs) r a e =
    ground (arith, pick_available-fits required (longer best s) rs r)

abbrev pub IsIn : ChunkState → List ChunkState → Type 0
IsIn a [] = ⊥
IsIn a (x ∷ xs) = (a ≡ x) ⊎ IsIn a xs

-- The search keeps the largest, and it is one of those searched.
max_by_remaining_lem :
    (best : Option ChunkState) (cs : List ChunkState) (c : ChunkState)
    → max_by_remaining best cs ≡ some c
    → All (λ d. remaining d ≤ remaining c) cs
      × IsAtMost best (remaining c)
      × ((best ≡ some c) ⊎ IsIn c cs)
unfolding max_by_remaining
max_by_remaining_lem none [] c e = absurd (ground arith)
max_by_remaining_lem (some b) [] c e = (tt, ground arith, inl e)
max_by_remaining_lem none (d ∷ cs) c e = ground (arith, max_by_remaining_lem (some d) cs c)
max_by_remaining_lem (some b) (d ∷ cs) c e = elim (Bool-cases (ltb (remaining d) (remaining b))) [
  | inl t ↦ ground (arith, max_by_remaining_lem (some b) cs c (rw t at e), ltb→lt _ _ t)
  | inr f ↦ ground (arith, max_by_remaining_lem (some d) cs c (rw f at e))
]

-- What a filter keeps passes its test and was in the list.
filter-IsIn :
    (test : ChunkState → Bool) (c : ChunkState) (cs : List ChunkState)
    → IsIn c (filter test cs)
    → (test c ≡ true) × IsIn c cs
filter-IsIn test c [] h = absurd h
filter-IsIn test c (d ∷ cs) h = elim (Bool-cases (test d)) [
  | inl t ↦ elim (rw t at h) [
    | inl e ↦ (rw e t, inl e)
    | inr k ↦ let (pass, there) = filter-IsIn test c cs k in (pass, inr there)
  ]
  | inr f ↦ let (pass, there) = filter-IsIn test c cs (rw f at h) in (pass, inr there)
]

-- The chunk that the second search finds.
pub best_candidate_lem :
    (p : ChunkPlanner) (c : ChunkState)
    → best_candidate p ≡ some c
    → IsIn c (values p.chunks)
      × (is_candidate p.min_chunk_size c ≡ true)
      × All
          (λ d. remaining d ≤ remaining c)
          (filter (is_candidate p.min_chunk_size) (values p.chunks))
unfolding best_candidate
best_candidate_lem p c e =
    let cs = filter (is_candidate p.min_chunk_size) (values p.chunks) in
    let (largest, _, found) = max_by_remaining_lem none cs c e in
    elim found [
      | inl q ↦ absurd (ground arith)
      | inr there ↦
          let (pass, among) =
            filter-IsIn (is_candidate p.min_chunk_size) c (values p.chunks) there in
          (among, pass, largest)
    ]

-- If `find_chunk_to_split` suggests a range without a runner on a valid planner, each offset of the
-- range lies below the total and in no chunk.
pub find_chunk_to_split-free :
    (p : ChunkPlanner) (required x : ℕ) (r : Range)
    → IsValid p
    → find_chunk_to_split p required ≡ some (none, r)
    → within x r ≡ true
    → (x < p.total) × (covers x p.chunks ≡ false)
unfolding find_chunk_to_split
find_chunk_to_split-free p required x r v e w =
    go (pick_available required none (get_available_ranges p)) refl (best_candidate p) refl
  where
    go :
        (a : Option Range)
        → pick_available required none (get_available_ranges p) ≡ a
        → (b : Option ChunkState) → best_candidate p ≡ b
        → (x < p.total) × (covers x p.chunks ≡ false)
    go (some s) q b k = ground (
      arith,
      pick_available-within required x none (get_available_ranges p) r,
      in_available_iff p x v,
    )
    go none q none k = absurd (ground arith)
    go none q (some c) k = absurd (ground (arith, best_candidate_lem p c k))

-- If `find_chunk_to_split` suggests to split the chunk of a runner, nothing is available, and the
-- runner has a running chunk with at least the minimal chunk size remaining, and with no less
-- remaining than any other such chunk; the suggested range starts at the chunk's downloaded end.
pub find_chunk_to_split-largest :
    (p : ChunkPlanner) (required id : ℕ) (r : Range)
    → find_chunk_to_split p required ≡ some (some id, r)
    → (get_available_ranges p ≡ [])
      × ((c : ChunkState) × IsIn c (values p.chunks)
          × (is_candidate p.min_chunk_size c ≡ true)
          × (c.runner_id ≡ some id)
          × (r.start ≡ c.downloaded.end)
          × All
              (λ d. remaining d ≤ remaining c)
              (filter (is_candidate p.min_chunk_size) (values p.chunks)))
unfolding find_chunk_to_split
find_chunk_to_split-largest p required id r e =
    go (pick_available required none (get_available_ranges p)) refl (best_candidate p) refl
  where
    go :
        (a : Option Range)
        → pick_available required none (get_available_ranges p) ≡ a
        → (b : Option ChunkState) → best_candidate p ≡ b
        → (get_available_ranges p ≡ [])
          × ((c : ChunkState) × IsIn c (values p.chunks)
              × (is_candidate p.min_chunk_size c ≡ true)
              × (c.runner_id ≡ some id)
              × (r.start ≡ c.downloaded.end)
              × All
                  (λ d. remaining d ≤ remaining c)
                  (filter (is_candidate p.min_chunk_size) (values p.chunks)))
    go (some s) q b k = absurd (ground arith)
    go none q none k = absurd (ground arith)
    go none q (some c) k =
        let (there, pass, largest) = best_candidate_lem p c k in
        (
          (pick_available-none required none (get_available_ranges p) q).1,
          (c, there, pass, ground arith, ground arith, largest),
        )

-- If something is available and some available range is long enough, `find_chunk_to_split` suggests a
-- range without a runner, of exactly the required length.
pub find_chunk_to_split-fits :
    (p : ChunkPlanner) (required : ℕ)
    → any (λ s. leb required (len s)) (get_available_ranges p) ≡ true
    → (start : ℕ) × (find_chunk_to_split p required ≡ some (none, range start (start + required)))
unfolding find_chunk_to_split
find_chunk_to_split-fits p required h =
    go (pick_available required none (get_available_ranges p)) refl
  where
    go :
        (a : Option Range)
        → pick_available required none (get_available_ranges p) ≡ a
        → (start : ℕ) × (find_chunk_to_split p required
            ≡ some (none, range start (start + required)))
    go none q =
        absurd (ground (arith, pick_available-none required none (get_available_ranges p) q))
    go (some s) q =
        (s.start, ground (arith, pick_available-fits required none (get_available_ranges p) s h q))
