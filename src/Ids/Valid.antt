-- ===== src/Ids/Valid.antt =====
-- id.rs: what holds of every generator the code makes, and what its search finds.
use Prim.Native.Nat.{◌+◌, ◌-◌, ◌%◌, ◌≤◌, ◌<◌}
use native.Mathlib.Decide.{dec_lt}
use mathlib.Core.Path.{subst}
use native.Mathlib.Nat.{mod-lt, mod-eq_of_lt, add-mod-mod, add-mod_right}
use bolt_load.Prelude.{
  ℕ, zero, suc, Bool, true, false, Bool-cases, Option, none, some, Option-cases, ◌≡◌, sym, arith,
  inl, inr, leb, length, u64_mod, add64, sub64,
}
use bolt_load.Ids.Generator.{
  Generator, new, bit_at, set_bit, search_free, take_index, next, free_index, release, is_full,
}
use bolt_load.Ids.Bits.{
  set_bits, length-set_bit, set_bits-set, set_bits-clear, bit_at-length, set_bits-le, full-set_bits,
  length-clear_bits, set_bits-clear_bits,
}

-- The count is the number of ids that are allocated, and the hint is an id.
pub record IsValid (g : Generator) : Type 0 where
  pub counts : g.allocated_count ≡ set_bits g.bits
  pub hint_fits : 0 < length g.bits → g.next_free_hint < length g.bits
  pub fits : length g.bits < u64_mod

-- The index that the loop of `next` looks at in round `i`.
abbrev pub index_of : Generator → ℕ → ℕ
index_of g i = (g.next_free_hint + i) % length g.bits

-- The round in which the loop looks at `k`.
abbrev round_of : ℕ → ℕ → ℕ → ℕ
round_of hint cap k = (k + (cap - hint)) % cap

index_of_round : (hint cap k : ℕ) → hint < cap → k < cap → (hint + round_of hint cap k) % cap ≡ k
index_of_round hint cap k h lt =
    let sum : hint + (k + (cap - hint)) ≡ k + cap = omega arith in
    rw (add-mod-mod hint (k + (cap - hint)) cap, sum, add-mod_right k cap) (mod-eq_of_lt lt)

search_free-found :
    (g : Generator) (i rounds k : ℕ)
    → search_free g i rounds ≡ some k
    → 0 < length g.bits
    → (k < length g.bits) × (bit_at g.bits k ≡ false)
unfolding search_free
search_free-found g i zero k found h = ground arith
search_free-found g i (suc rounds) k found h =
    let lt = mod-lt (g.next_free_hint + i) h in ground (arith, search_free-found g (i + 1) rounds k)

search_free-none :
    (g : Generator) (i rounds : ℕ)
    → search_free g i rounds ≡ none
    → (j : ℕ) → i ≤ j
    → j < i + rounds
    → bit_at g.bits (index_of g j) ≡ true
unfolding search_free
search_free-none g i zero found j h lt = absurd (omega arith)
search_free-none g i (suc rounds) found j h lt = elim (dec_lt i j) [
  | yes later ↦
      ground (arith, search_free-none g (i + 1) rounds (ground arith) j (omega arith) (omega arith))
  | no now ↦ let at_i : j ≡ i = omega arith in rw (at_i) (ground arith)
]

-- A search that fails has seen every bit set.
search_free-full :
    (g : Generator)
    → IsValid g
    → search_free g 0 (length g.bits) ≡ none
    → (k : ℕ) → k < length g.bits
    → bit_at g.bits k ≡ true
search_free-full g valid found k lt =
    let round = round_of g.next_free_hint (length g.bits) k in
    subst (λ index. bit_at g.bits index ≡ true)
      (index_of_round _ _ k (valid.hint_fits (omega arith)) lt)
      (search_free-none g 0 _ found round (omega arith) (
        omega (
          arith,
          mod-lt (k + (length g.bits - g.next_free_hint)) {m = length g.bits} (omega arith),
        )))

pub new-IsValid : (n : ℕ) → n < u64_mod → IsValid (new n)
new-IsValid n h = record {
  counts = sym (set_bits-clear_bits n);
  hint_fits = λ lt. lt;
  fits = rw (length-clear_bits n) h;
}

pub take_index-IsValid :
    (g : Generator) (k : ℕ)
    → IsValid g
    → k < length g.bits
    → bit_at g.bits k ≡ false
    → IsValid (take_index g k)
unfolding add64
take_index-IsValid g k valid lt free =
    let same = length-set_bit g.bits k true in
    record {
      counts = omega (
        arith,
        valid.counts,
        valid.fits,
        set_bits-set g.bits k lt free,
        set_bits-le (set_bit g.bits k true),
        same,
      );
      hint_fits = λ h. rw (same) (mod-lt _ (omega arith));
      fits = rw (same) valid.fits;
    }

free_index-IsValid :
    (g : Generator) (k : ℕ) → IsValid g → bit_at g.bits k ≡ true → IsValid (free_index g k)
unfolding sub64
free_index-IsValid g k valid taken =
    let same = length-set_bit g.bits k false in
    let lt = bit_at-length g.bits k taken in
    record {
      counts =
          omega
            (arith, valid.counts, valid.fits, set_bits-clear g.bits k taken, set_bits-le g.bits);
      hint_fits = λ h. ground (arith, same, lt, valid.hint_fits);
      fits = rw (same) valid.fits;
    }

-- The three ways of `next`.
pub data Next (g : Generator) : Generator × Option ℕ → Type 0 where
  all_taken : ((k : ℕ) → k < length g.bits → bit_at g.bits k ≡ true) → Next g (g, none)
  takes : (k : ℕ) → k < length g.bits → bit_at g.bits k ≡ false → Next g (take_index g k, some k)

pub next_cases : (g : Generator) → IsValid g → Next g (next g)
unfolding next
next_cases g valid = elim (Bool-cases (is_full g)) [
  | inl full ↦
      rw full
        (all_taken (full-set_bits g.bits (ground (arith, valid.counts, set_bits-le g.bits, full))))
  | inr room ↦ rw room (elim (Option-cases (search_free g 0 (length g.bits))) [
    | inl none_found ↦ rw none_found (all_taken (search_free-full g valid none_found))
    | inr (k, found) ↦
        let (lt, free) = search_free-found g 0 (length g.bits) k found (ground (arith, room)) in
        rw found (takes k lt free)
  ])
]

-- The ways of `release`.
pub data Release (g : Generator) (id : ℕ) : Generator × Bool → Type 0 where
  frees : bit_at g.bits id ≡ true → Release g id (free_index g id, true)
  ignores : bit_at g.bits id ≡ false → Release g id (g, false)

pub release_cases : (g : Generator) (id : ℕ) → Release g id (release g id)
unfolding release
release_cases g id = elim (Bool-cases (bit_at g.bits id)) [
  | inl taken ↦
      let lt = bit_at-length g.bits id taken in
      let outside : leb (length g.bits) id ≡ false = ground (arith, lt) in
      rw (taken, outside) (frees taken)
  | inr free ↦
      let same : release g id ≡ (g, false) = ground (arith, free) in
      subst (Release g id) (sym same) (ignores free)
]

pub next-IsValid : (g : Generator) → IsValid g → IsValid (next g).0
next-IsValid g valid = after (next g) (next_cases g valid)
  where
    after : (r : Generator × Option ℕ) → Next g r → IsValid r.0
    after _ (all_taken _) = valid
    after _ (takes k lt free) = take_index-IsValid g k valid lt free

pub release-IsValid : (g : Generator) (id : ℕ) → IsValid g → IsValid (release g id).0
release-IsValid g id valid = after (release g id) (release_cases g id)
  where
    after : (r : Generator × Bool) → Release g id r → IsValid r.0
    after _ (frees taken) = free_index-IsValid g id valid taken
    after _ (ignores _) = valid
