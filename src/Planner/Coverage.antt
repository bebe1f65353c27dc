-- ===== src/Planner/Coverage.antt =====
-- Which offsets the chunks of a planner cover, and which the available ranges; and what failing,
-- splitting and shrinking a chunk does to the covered offsets.
use bolt_load.Prelude.{
  ℕ, ◌<◌, ◌≡◌, refl, ◌∙◌, Bool, false, not, ◌&&◌, ◌||◌, Option, none, some, List, [], ◌∷◌, arith,
  leb, ltb,
}
use bolt_load.OrdMap.{get, insert, remove}
use bolt_load.Planner.Chunk.{Range, ChunkState}
use bolt_load.Planner.State.{ChunkPlanner}
use bolt_load.Planner.Queries.{available_from, get_available_ranges}
use bolt_load.Planner.Chain.{Chain, Chain-bounds, get_below}
use bolt_load.Planner.Valid.{IsValid}

abbrev pub within : ℕ → Range → Bool
within x r = leb r.start x && ltb x r.end

-- Some chunk is allocated at the offset.
abbrev pub covers : ℕ → List (ℕ × ChunkState) → Bool
covers x [] = false
covers x ((k, c) ∷ m) = within x c.allocated || covers x m

abbrev pub in_ranges : ℕ → List Range → Bool
in_ranges x [] = false
in_ranges x (r ∷ rs) = within x r || in_ranges x rs

abbrev pub within_at : ℕ → Option ChunkState → Bool
within_at x none = false
within_at x (some c) = within x c.allocated

pub covers_below :
    (lo hi x : ℕ) (m : List (ℕ × ChunkState)) → Chain lo m hi → x < lo → covers x m ≡ false
covers_below lo hi x [] h l = refl
covers_below lo hi x ((k, c) ∷ m) h l = ground (arith, covers_below c.allocated.end hi x m h.3)

pub within_get :
    (k x : ℕ) (m : List (ℕ × ChunkState)) → covers x m ≡ false → within_at x (get k m) ≡ false
unfolding get
within_get k x [] h = refl
within_get k x ((j, d) ∷ m) h = ground (arith, within_get k x m)

-- The chunks of a chain are apart, so taking one out uncovers its range.
pub covers-remove :
    (lo hi k x : ℕ) (m : List (ℕ × ChunkState))
    → Chain lo m hi
    → covers x (remove k m) ≡ (covers x m && not (within_at x (get k m)))
unfolding remove get
covers-remove lo hi k x [] h = refl
covers-remove lo hi k x ((j, d) ∷ m) h = ground (
  arith,
  covers-remove d.allocated.end hi k x m h.3,
  within_get k x m,
  covers_below d.allocated.end hi x m h.3,
  get_below d.allocated.end hi k m h.3,
)

pub covers-insert :
    (lo hi k x : ℕ) (c : ChunkState) (m : List (ℕ × ChunkState))
    → Chain lo m hi
    → covers x (insert k c m)
      ≡ (within x c.allocated || (covers x m && not (within_at x (get k m))))
unfolding insert get
covers-insert lo hi k x c [] h = ground arith
covers-insert lo hi k x c ((j, d) ∷ m) h = ground (
  arith,
  covers-insert d.allocated.end hi k x c m h.3,
  within_get k x m,
  covers_below d.allocated.end hi x m h.3,
  get_below d.allocated.end hi k m h.3,
)

available_from_lem :
    (lo hi x : ℕ) (m : List (ℕ × ChunkState))
    → Chain lo m hi
    → in_ranges x (available_from lo m hi) ≡ (leb lo x && ltb x hi && not (covers x m))
unfolding available_from
available_from_lem lo hi x [] h = ground arith
available_from_lem lo hi x ((k, c) ∷ m) h = ground (
  arith,
  available_from_lem c.allocated.end hi x m h.3,
  Chain-bounds c.allocated.end hi m h.3,
  covers_below c.allocated.end hi x m h.3,
)

-- On a valid planner an offset lies in one of the available ranges exactly when it lies below the
-- total and in no chunk.
pub in_available_iff :
    (p : ChunkPlanner) (x : ℕ)
    → IsValid p
    → in_ranges x (get_available_ranges p) ≡ (ltb x p.total && not (covers x p.chunks))
in_available_iff p x v = available_from_lem 0 p.total x p.chunks v.chain ∙ ground arith
