-- ===== src/Planner/Merge.antt =====
-- `sort_by_key` and `merge_adjacent_ranges`: the offsets that the merged ranges hold, and their gaps.
use bolt_load.Prelude.{
  ℕ, ◌+◌, ◌≤◌, ◌<◌, ◌≡◌, refl, ap, ◌∙◌, ◌||◌, List, [], ◌∷◌, arith, leb, max, Bool-cases, inl, inr,
}
use bolt_load.Planner.Chunk.{Range, range}
use bolt_load.Planner.Queries.{
  len, insert_by_start, sort_by_start, merge_from, merge_sorted, merge_adjacent_ranges,
}
use bolt_load.Planner.Coverage.{within, in_ranges}

abbrev IsSortedFrom : ℕ → List Range → Type 0
IsSortedFrom lo [] = Unit {0}
IsSortedFrom lo (r ∷ rs) = (lo ≤ r.start) × IsSortedFrom r.start rs

-- Every range starts past the end of the one before it, the first past `e`.
abbrev pub GapsAfter : ℕ → List Range → Type 0
GapsAfter e [] = Unit {0}
GapsAfter e (r ∷ rs) = (e < r.start) × GapsAfter r.end rs

abbrev pub HasGaps : List Range → Type 0
HasGaps [] = Unit {0}
HasGaps (r ∷ rs) = GapsAfter r.end rs

-- Ranges in order that do not overlap, and the number of their offsets.
abbrev pub Disjoint : ℕ → List Range → Type 0
Disjoint lo [] = Unit {0}
Disjoint lo (r ∷ rs) = (lo ≤ r.start) × (r.start ≤ r.end) × Disjoint r.end rs

abbrev pub total_len : List Range → ℕ
total_len [] = 0
total_len (r ∷ rs) = len r + total_len rs

in_insert_by_start :
    (x : ℕ) (r : Range) (rs : List Range)
    → in_ranges x (insert_by_start r rs) ≡ (within x r || in_ranges x rs)
unfolding insert_by_start
in_insert_by_start x r [] = refl
in_insert_by_start x r (s ∷ rs) = ground (arith, in_insert_by_start x r rs)

pub in_sort_by_start : (x : ℕ) (rs : List Range) → in_ranges x (sort_by_start rs) ≡ in_ranges x rs
unfolding sort_by_start
in_sort_by_start x [] = refl
in_sort_by_start x (r ∷ rs) =
    in_insert_by_start x r (sort_by_start rs) ∙ ap (◌||◌ (within x r)) (in_sort_by_start x rs)

insert_by_start-IsSortedFrom :
    (lo : ℕ) (r : Range) (rs : List Range)
    → lo ≤ r.start
    → IsSortedFrom lo rs
    → IsSortedFrom lo (insert_by_start r rs)
unfolding insert_by_start
insert_by_start-IsSortedFrom lo r [] h s = (h, tt)
insert_by_start-IsSortedFrom lo r (x ∷ rs) h s =
    ground (arith, insert_by_start-IsSortedFrom x.start r rs)

sort_by_start-IsSortedFrom : (rs : List Range) → IsSortedFrom 0 (sort_by_start rs)
unfolding sort_by_start
sort_by_start-IsSortedFrom [] = tt
sort_by_start-IsSortedFrom (r ∷ rs) =
    insert_by_start-IsSortedFrom 0 r (sort_by_start rs) (omega arith)
      (sort_by_start-IsSortedFrom rs)

IsSortedFrom-lower :
    (lo lo' : ℕ) (rs : List Range) → lo' ≤ lo → IsSortedFrom lo rs → IsSortedFrom lo' rs
IsSortedFrom-lower lo lo' [] h s = tt
IsSortedFrom-lower lo lo' (r ∷ rs) h s = (omega arith, s.1)

within_merged :
    (x : ℕ) (last r : Range)
    → last.start ≤ r.start
    → r.start ≤ last.end
    → within x (range last.start (max last.end r.end)) ≡ (within x last || within x r)
within_merged x last r a b = ground arith

-- Merging a sorted list keeps its offsets.
in_merge_from :
    (x : ℕ) (last : Range) (rs : List Range)
    → IsSortedFrom last.start rs
    → in_ranges x (merge_from last rs) ≡ (within x last || in_ranges x rs)
unfolding merge_from
in_merge_from x last [] s = refl
in_merge_from x last (r ∷ rs) (a, s) = elim (Bool-cases (leb r.start last.end)) [
  | inl t ↦
      rw (t, merge_from)
        (ground (
          arith,
          in_merge_from x (range last.start (max last.end r.end)) rs
              (IsSortedFrom-lower r.start last.start rs a s),
          within_merged x last r,
        ))
  | inr f ↦ rw (f, merge_from) (ap (◌||◌ (within x last)) (in_merge_from x r rs s))
]

merge_from-GapsAfter :
    (e : ℕ) (last : Range) (rs : List Range) → e < last.start → GapsAfter e (merge_from last rs)
unfolding merge_from
merge_from-GapsAfter e last [] h = (h, tt)
merge_from-GapsAfter e last (r ∷ rs) h = ground (
  arith,
  merge_from-GapsAfter e (range last.start (max last.end r.end)) rs,
  merge_from-GapsAfter last.end r rs,
)

merge_from-HasGaps : (last : Range) (rs : List Range) → HasGaps (merge_from last rs)
unfolding merge_from
merge_from-HasGaps last [] = tt
merge_from-HasGaps last (r ∷ rs) = elim (Bool-cases (leb r.start last.end)) [
  | inl t ↦ rw (t, merge_from) (merge_from-HasGaps (range last.start (max last.end r.end)) rs)
  | inr f ↦ rw (f, merge_from) (merge_from-GapsAfter last.end r rs (ground arith))
]

merge_sorted-HasGaps : (rs : List Range) → HasGaps (merge_sorted rs)
merge_sorted-HasGaps [] = tt
merge_sorted-HasGaps (r ∷ rs) = merge_from-HasGaps r rs

in_merge_sorted :
    (x : ℕ) (rs : List Range) → IsSortedFrom 0 rs → in_ranges x (merge_sorted rs) ≡ in_ranges x rs
in_merge_sorted x [] s = refl
in_merge_sorted x (r ∷ rs) s = in_merge_from x r rs s.1

-- For ranges in any order, `merge_adjacent_ranges` returns ranges that hold exactly the same
-- offsets, each of them starting strictly past the end of the one before it.
pub merge_adjacent_ranges_lem :
    (rs : List Range)
    → ((x : ℕ) → in_ranges x (merge_adjacent_ranges rs) ≡ in_ranges x rs)
      × HasGaps (merge_adjacent_ranges rs)
unfolding merge_adjacent_ranges
merge_adjacent_ranges_lem rs = (
  λ x. in_merge_sorted x (sort_by_start rs) (sort_by_start-IsSortedFrom rs) ∙ in_sort_by_start x rs,
  merge_sorted-HasGaps (sort_by_start rs),
)

-- Ranges that do not overlap keep their total length.
sort_by_start_sorted : (lo : ℕ) (rs : List Range) → Disjoint lo rs → sort_by_start rs ≡ rs
unfolding sort_by_start
sort_by_start_sorted lo [] d = refl
sort_by_start_sorted lo (r ∷ []) d = refl
sort_by_start_sorted lo (r ∷ s ∷ rs) d = rw (sort_by_start_sorted r.end (s ∷ rs) d.2) (ground arith)

total_len-merge_from :
    (last : Range) (rs : List Range)
    → last.start ≤ last.end
    → Disjoint last.end rs
    → total_len (merge_from last rs) ≡ len last + total_len rs
unfolding merge_from
total_len-merge_from last [] h d = refl
total_len-merge_from last (r ∷ rs) h d = ground (
  arith,
  total_len-merge_from (range last.start (max last.end r.end)) rs,
  total_len-merge_from r rs,
)

pub total_len-merge :
    (lo : ℕ) (rs : List Range)
    → Disjoint lo rs
    → total_len (merge_adjacent_ranges (sort_by_start rs)) ≡ total_len rs
unfolding merge_adjacent_ranges
total_len-merge lo rs d =
    rw (sort_by_start_sorted lo rs d, sort_by_start_sorted lo rs d) (merged rs d)
  where
    merged : (qs : List Range) → Disjoint lo qs → total_len (merge_sorted qs) ≡ total_len qs
    merged [] e = refl
    merged (q ∷ qs) e = total_len-merge_from q qs e.1 e.2
