-- ===== src/Planner/Downloaded.antt =====
-- `get_downloaded_ranges` and `is_complete`.
use bolt_load.Prelude.{ℕ, ◌≤◌, ◌<◌, ◌≡◌, refl, ◌∙◌, Bool, true, false, ◌||◌, List, [], ◌∷◌, arith}
use bolt_load.Planner.Chunk.{Range, ChunkState}
use bolt_load.Planner.State.{ChunkPlanner}
use bolt_load.Planner.Queries.{downloaded_ranges, get_downloaded_ranges, is_complete, sort_by_start}
use bolt_load.Planner.Chain.{Chain, downloaded_bytes}
use bolt_load.Planner.Valid.{IsValid}
use bolt_load.Planner.Coverage.{within, covers, in_ranges, in_available_iff}
use bolt_load.Planner.Merge.{
  Disjoint, HasGaps, total_len, total_len-merge, merge_adjacent_ranges_lem, in_sort_by_start,
}

-- Some chunk has downloaded the offset.
abbrev pub downloads : ℕ → List (ℕ × ChunkState) → Bool
downloads x [] = false
downloads x ((k, c) ∷ m) = within x c.downloaded || downloads x m

in_downloaded_ranges :
    (x : ℕ) (m : List (ℕ × ChunkState)) → in_ranges x (downloaded_ranges m) ≡ downloads x m
unfolding downloaded_ranges
in_downloaded_ranges x [] = refl
in_downloaded_ranges x ((k, c) ∷ m) = ground (arith, in_downloaded_ranges x m)

Disjoint-lower : (lo lo' : ℕ) (rs : List Range) → lo' ≤ lo → Disjoint lo rs → Disjoint lo' rs
Disjoint-lower lo lo' [] h d = tt
Disjoint-lower lo lo' (r ∷ rs) h d = (omega arith, d.1, d.2)

downloaded_ranges-Disjoint :
    (lo hi : ℕ) (m : List (ℕ × ChunkState)) → Chain lo m hi → Disjoint lo (downloaded_ranges m)
unfolding downloaded_ranges
downloaded_ranges-Disjoint lo hi [] h = tt
downloaded_ranges-Disjoint lo hi ((k, c) ∷ m) h = ground (
  arith,
  downloaded_ranges-Disjoint c.allocated.end hi m h.3,
  Disjoint-lower c.allocated.end c.downloaded.end (downloaded_ranges m),
  Disjoint-lower c.allocated.end lo (downloaded_ranges m),
)

total_len-downloaded_ranges :
    (lo hi : ℕ) (m : List (ℕ × ChunkState))
    → Chain lo m hi
    → total_len (downloaded_ranges m) ≡ downloaded_bytes m
unfolding downloaded_ranges
total_len-downloaded_ranges lo hi [] h = refl
total_len-downloaded_ranges lo hi ((k, c) ∷ m) h =
    ground (arith, total_len-downloaded_ranges c.allocated.end hi m h.3)

-- On a valid planner `get_downloaded_ranges` returns ranges that hold exactly the offsets that some
-- chunk has downloaded, with a gap between any two, and whose lengths add up to `accepted_bytes`.
pub get_downloaded_ranges_lem :
    (p : ChunkPlanner)
    → IsValid p
    → ((x : ℕ) → in_ranges x (get_downloaded_ranges p) ≡ downloads x p.chunks)
      × HasGaps (get_downloaded_ranges p)
      × (total_len (get_downloaded_ranges p) ≡ p.accepted_bytes)
unfolding get_downloaded_ranges
get_downloaded_ranges_lem p v =
    let sorted = sort_by_start (downloaded_ranges p.chunks) in
    (
      λ x.
          (merge_adjacent_ranges_lem sorted).0 x
          ∙ in_sort_by_start x (downloaded_ranges p.chunks)
          ∙ in_downloaded_ranges x p.chunks,
      (merge_adjacent_ranges_lem sorted).1,
      total_len-merge 0 (downloaded_ranges p.chunks)
            (downloaded_ranges-Disjoint 0 p.total p.chunks v.chain)
          ∙ total_len-downloaded_ranges 0 p.total p.chunks v.chain
          ∙ ground (arith, v.counted),
    )

-- A valid planner that is complete has a chunk at every offset below the total.
pub is_complete-covers :
    (p : ChunkPlanner) (x : ℕ)
    → IsValid p
    → is_complete p ≡ true
    → x < p.total
    → covers x p.chunks ≡ true
unfolding is_complete
is_complete-covers p x v h l = ground (arith, in_available_iff p x v)
