-- ===== src/Ids/Generator.antt =====
-- id.rs: `Generator` and its operations. A `BitVec` is a list of bits; it holds fewer than 2 ^ 61 of
-- them, so the sums of two positions do not overflow. Every access of the code is within the capacity.
use bolt_load.Prelude.{
  ℕ, zero, suc, ◌+◌, ◌%◌, Bool, true, false, not, ◌&&◌, Option, none, some, List, [], ◌∷◌, ltb, leb,
  if◌then◌else◌, length, add64, sub64,
}

pub record Generator : Type 0 where
  pub bits : List Bool
  pub next_free_hint : ℕ
  pub allocated_count : ℕ

-- `bitvec[index]` and `bitvec.set(index, bit)`.
unfoldable pub bit_at : List Bool → ℕ → Bool
bit_at [] k = false
bit_at (b ∷ bs) zero = b
bit_at (b ∷ bs) (suc k) = bit_at bs k

unfoldable pub set_bit : List Bool → ℕ → Bool → List Bool
set_bit [] k bit = []
set_bit (b ∷ bs) zero bit = bit ∷ bs
set_bit (b ∷ bs) (suc k) bit = b ∷ set_bit bs k bit

-- `bitvec![0; capacity]`.
unfoldable pub clear_bits : ℕ → List Bool
clear_bits zero = []
clear_bits (suc n) = false ∷ clear_bits n

abbrev pub new : ℕ → Generator
new capacity = record { bits = clear_bits capacity; next_free_hint = 0; allocated_count = 0 }

abbrev pub capacity : Generator → ℕ
capacity g = length g.bits

abbrev pub is_allocated : Generator → ℕ → Bool
is_allocated g id = ltb id (length g.bits) && bit_at g.bits id

abbrev pub is_full : Generator → Bool
is_full g = leb (length g.bits) g.allocated_count

-- The loop of `next` from round `i`, with the rounds left: the first free index.
unfoldable pub search_free : Generator → ℕ → ℕ → Option ℕ
unfolding bit_at
search_free g i zero = none
search_free g i (suc rounds) =
    let index = (g.next_free_hint + i) % length g.bits in
    let rest = search_free g (i + 1) rounds in
    if not (bit_at g.bits index) then some index else rest

-- What the loop does with the free index it found.
abbrev pub take_index : Generator → ℕ → Generator
take_index g index = record g {
  bits = set_bit g.bits index true;
  allocated_count = add64 g.allocated_count 1;
  next_free_hint = (index + 1) % length g.bits;
}

unfoldable pub next : Generator → Generator × Option ℕ
unfolding search_free set_bit
next g = if is_full g then (g, none) else (elim (search_free g 0 (length g.bits)) [
  | none ↦ (g, none)
  | some index ↦ (take_index g index, some index)
])

abbrev pub free_index : Generator → ℕ → Generator
free_index g id = record g {
  bits = set_bit g.bits id false;
  allocated_count = sub64 g.allocated_count 1;
  next_free_hint = if ltb id g.next_free_hint then id else g.next_free_hint;
}

unfoldable pub release : Generator → ℕ → Generator × Bool
unfolding bit_at set_bit
release g id =
    if leb (length g.bits) id
    then (g, false)
    else if bit_at g.bits id
    then (free_index g id, true)
    else (g, false)

abbrev pub reset : Generator → Generator
reset g = record { bits = clear_bits (length g.bits); next_free_hint = 0; allocated_count = 0 }
