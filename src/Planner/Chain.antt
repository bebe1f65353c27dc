-- ===== src/Planner/Chain.antt =====
-- The chunks of a planner as a chain of ranges: in key order, keyed by their start, none
-- overlapping the next. The lemmas on what a map operation does to a chain and to the byte count.
use bolt_load.Prelude.{
  ℕ, ◌+◌, ◌-◌, ◌≤◌, ◌<◌, ◌≡◌, refl, ◌⊎◌, inl, Option, none, some, List, [], ◌∷◌, arith,
}
use bolt_load.OrdMap.{get, insert, remove, last_before}
use bolt_load.Planner.Chunk.{ChunkState}

-- The downloaded part is a prefix of a range that is not empty.
abbrev pub IsSound : ChunkState → Type 0
IsSound c =
    (c.downloaded.start ≡ c.allocated.start)
    × (c.downloaded.start ≤ c.downloaded.end)
    × (c.downloaded.end ≤ c.allocated.end)
    × (c.allocated.start < c.allocated.end)

-- Every chunk lies in [lo, hi), after the one before it.
abbrev pub Chain : ℕ → List (ℕ × ChunkState) → ℕ → Type 0
Chain lo [] hi = lo ≤ hi
Chain lo ((k, c) ∷ m) hi =
    (lo ≤ k) × (k ≡ c.allocated.start) × IsSound c × Chain c.allocated.end m hi

abbrev pub downloaded_len : ChunkState → ℕ
downloaded_len c = c.downloaded.end - c.downloaded.start

abbrev pub downloaded_bytes : List (ℕ × ChunkState) → ℕ
downloaded_bytes [] = 0
downloaded_bytes ((k, c) ∷ m) = downloaded_len c + downloaded_bytes m

-- The bytes of the chunk under a key, if there is one.
abbrev pub bytes_at : Option ChunkState → ℕ
bytes_at none = 0
bytes_at (some c) = downloaded_len c

pub Chain-bounds : (lo hi : ℕ) (m : List (ℕ × ChunkState)) → Chain lo m hi → lo ≤ hi
Chain-bounds lo hi [] h = h
Chain-bounds lo hi ((k, c) ∷ m) (a, b, s, r) = omega (arith, Chain-bounds c.allocated.end hi m r)

pub Chain-lower :
    (lo lo' hi : ℕ) (m : List (ℕ × ChunkState)) → lo' ≤ lo → Chain lo m hi → Chain lo' m hi
Chain-lower lo lo' hi [] l h = omega arith
Chain-lower lo lo' hi ((k, c) ∷ m) l (a, b, s, r) = (omega arith, b, s, r)

pub downloaded_bytes-le :
    (lo hi : ℕ) (m : List (ℕ × ChunkState)) → Chain lo m hi → downloaded_bytes m + lo ≤ hi
downloaded_bytes-le lo hi [] h = omega arith
downloaded_bytes-le lo hi ((k, c) ∷ m) (a, b, s, r) =
    omega (arith, downloaded_bytes-le c.allocated.end hi m r)

-- A key below the chain is not in it.
pub get_below : (lo hi k : ℕ) (m : List (ℕ × ChunkState)) → Chain lo m hi → k < lo → get k m ≡ none
unfolding get
get_below lo hi k [] h l = refl
get_below lo hi k ((j, c) ∷ m) (a, b, s, r) l = ground (arith, get_below c.allocated.end hi k m r)

-- A chunk of the chain.
pub get-IsSound :
    (lo hi k : ℕ) (m : List (ℕ × ChunkState)) (c : ChunkState)
    → Chain lo m hi
    → get k m ≡ some c
    → (k ≡ c.allocated.start) × IsSound c × (lo ≤ k) × (c.allocated.end ≤ hi)
unfolding get
get-IsSound lo hi k [] c h e = absurd (ground arith)
get-IsSound lo hi k ((j, d) ∷ m) c h e =
    ground (arith, get-IsSound d.allocated.end hi k m c h.3, Chain-bounds d.allocated.end hi m h.3)

-- No chunk starts inside another.
pub get_inside :
    (lo hi k x : ℕ) (m : List (ℕ × ChunkState)) (c : ChunkState)
    → Chain lo m hi
    → get k m ≡ some c
    → k < x
    → x < c.allocated.end
    → get x m ≡ none
unfolding get
get_inside lo hi k x [] c h g a b = refl
get_inside lo hi k x ((j, d) ∷ m) c h g a b = ground (
  arith,
  get_inside d.allocated.end hi k x m c h.3,
  get_below d.allocated.end hi x m h.3,
  get-IsSound d.allocated.end hi k m c h.3,
)

-- What the last chunk that starts before a bound must leave free.
abbrev pub EndsBy : ℕ → Option (ℕ × ChunkState) → Type 0
EndsBy start none = Unit {0}
EndsBy start (some (j, d)) = d.allocated.end ≤ start

-- The last chunk that starts before a bound ends past the start of the chain.
last_before_past :
    (lo hi bound start : ℕ) (m : List (ℕ × ChunkState))
    → Chain lo m hi
    → EndsBy start (last_before bound m)
    → (last_before bound m ≡ none) ⊎ (lo < start)
unfolding last_before
last_before_past lo hi bound start [] h e = inl refl
last_before_past lo hi bound start ((k, c) ∷ m) h e =
    ground (arith, last_before_past c.allocated.end hi bound start m h.3)

-- Where the chain is clear no chunk starts.
pub get_clear :
    (lo hi start bound : ℕ) (m : List (ℕ × ChunkState))
    → Chain lo m hi
    → start < bound
    → EndsBy start (last_before bound m)
    → get start m ≡ none
unfolding get last_before
get_clear lo hi start bound [] h l e = refl
get_clear lo hi start bound ((k, d) ∷ m) h l e = ground (
  arith,
  get_clear d.allocated.end hi start bound m h.3,
  get_below d.allocated.end hi start m h.3,
  last_before_past d.allocated.end hi bound start m h.3,
)

-- A new chunk goes where the chain is clear.
pub insert-Chain_new :
    (lo hi : ℕ) (c : ChunkState) (m : List (ℕ × ChunkState))
    → Chain lo m hi
    → IsSound c
    → lo ≤ c.allocated.start
    → c.allocated.end ≤ hi
    → EndsBy c.allocated.start (last_before c.allocated.end m)
    → Chain lo (insert c.allocated.start c m) hi
unfolding insert last_before
insert-Chain_new lo hi c [] h s a b e = ground arith
insert-Chain_new lo hi c ((k, d) ∷ m) h s a b e = ground (
  arith,
  insert-Chain_new d.allocated.end hi c m h.3,
  last_before_past d.allocated.end hi c.allocated.end c.allocated.start m h.3,
  Chain-lower d.allocated.end c.allocated.end hi m,
)

last_before-none :
    (lo hi bound : ℕ) (m : List (ℕ × ChunkState))
    → Chain lo m hi
    → bound ≤ lo
    → last_before bound m ≡ none
unfolding last_before
last_before-none lo hi bound [] h l = refl
last_before-none lo hi bound ((k, d) ∷ m) h l = ground arith

-- A chunk that is cut short leaves the rest of its range clear.
pub last_before_cut :
    (lo hi k : ℕ) (c c' : ChunkState) (m : List (ℕ × ChunkState))
    → Chain lo m hi
    → get k m ≡ some c
    → k ≤ c'.allocated.end
    → EndsBy c'.allocated.end (last_before c.allocated.end (insert k c' m))
unfolding insert get last_before
last_before_cut lo hi k c c' [] h g l = absurd (ground arith)
last_before_cut lo hi k c c' ((j, d) ∷ m) h g l = ground (
  arith,
  last_before_cut d.allocated.end hi k c c' m h.3,
  last_before-none d.allocated.end hi c.allocated.end m h.3,
  get-IsSound d.allocated.end hi k m c h.3,
  get_below d.allocated.end hi k m h.3,
)

-- A chunk is replaced by one that covers no more.
pub insert-Chain_same :
    (lo hi k : ℕ) (c c' : ChunkState) (m : List (ℕ × ChunkState))
    → Chain lo m hi
    → get k m ≡ some c
    → IsSound c'
    → c'.allocated.start ≡ k
    → c'.allocated.end ≤ c.allocated.end
    → Chain lo (insert k c' m) hi
unfolding insert get
insert-Chain_same lo hi k c c' [] h g s e l = absurd (ground arith)
insert-Chain_same lo hi k c c' ((j, d) ∷ m) h g s e l = ground (
  arith,
  get_below d.allocated.end hi k m h.3,
  insert-Chain_same d.allocated.end hi k c c' m h.3,
  Chain-lower d.allocated.end c'.allocated.end hi m,
)

pub remove-Chain :
    (lo hi k : ℕ) (m : List (ℕ × ChunkState)) → Chain lo m hi → Chain lo (remove k m) hi
unfolding remove
remove-Chain lo hi k [] h = h
remove-Chain lo hi k ((j, d) ∷ m) h =
    ground (
      arith,
      remove-Chain d.allocated.end hi k m h.3,
      Chain-lower d.allocated.end lo hi (remove k m),
    )

pub downloaded_bytes-insert :
    (lo hi k : ℕ) (c : ChunkState) (m : List (ℕ × ChunkState))
    → Chain lo m hi
    → downloaded_bytes (insert k c m) + bytes_at (get k m) ≡ downloaded_bytes m + downloaded_len c
unfolding insert get
downloaded_bytes-insert lo hi k c [] h = omega arith
downloaded_bytes-insert lo hi k c ((j, d) ∷ m) h = ground (
  arith,
  get_below d.allocated.end hi k m h.3,
  downloaded_bytes-insert d.allocated.end hi k c m h.3,
)

pub downloaded_bytes-remove :
    (lo hi k : ℕ) (m : List (ℕ × ChunkState))
    → Chain lo m hi
    → downloaded_bytes (remove k m) + bytes_at (get k m) ≡ downloaded_bytes m
unfolding remove get
downloaded_bytes-remove lo hi k [] h = omega arith
downloaded_bytes-remove lo hi k ((j, d) ∷ m) h = ground (
  arith,
  get_below d.allocated.end hi k m h.3,
  downloaded_bytes-remove d.allocated.end hi k m h.3,
)

insert_below :
    (lo hi k : ℕ) (c : ChunkState) (m : List (ℕ × ChunkState))
    → Chain lo m hi
    → k < lo
    → insert k c m ≡ (k, c) ∷ m
unfolding insert
insert_below lo hi k c [] h l = refl
insert_below lo hi k c ((j, d) ∷ m) h l = ground arith

remove_below : (lo hi k : ℕ) (m : List (ℕ × ChunkState)) → Chain lo m hi → k < lo → remove k m ≡ m
unfolding remove
remove_below lo hi k [] h l = refl
remove_below lo hi k ((j, d) ∷ m) h l = ground (arith, remove_below d.allocated.end hi k m h.3)

-- Taking a chunk out and putting another in under its key replaces it.
pub insert-remove :
    (lo hi k : ℕ) (c : ChunkState) (m : List (ℕ × ChunkState))
    → Chain lo m hi
    → insert k c (remove k m) ≡ insert k c m
unfolding insert remove
insert-remove lo hi k c [] h = refl
insert-remove lo hi k c ((j, d) ∷ m) h = ground (
  arith,
  insert-remove d.allocated.end hi k c m h.3,
  insert_below d.allocated.end hi k c m h.3,
  remove_below d.allocated.end hi k m h.3,
)
