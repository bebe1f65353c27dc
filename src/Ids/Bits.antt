-- ===== src/Ids/Bits.antt =====
-- id.rs: a bit vector after one of its bits was set, and the number of bits that are set.
use bolt_load.Prelude.{
  ℕ, zero, suc, ◌<◌, ◌≤◌, Bool, true, false, List, [], ◌∷◌, ◌≡◌, refl, arith, ◌==◌, if◌then◌else◌,
  length,
}
use bolt_load.Ids.Generator.{bit_at, set_bit, clear_bits}

unfoldable pub set_bits : List Bool → ℕ
set_bits [] = 0
set_bits (b ∷ bs) = let n = set_bits bs in if b then suc n else n

pub length-set_bit : (bs : List Bool) (k : ℕ) (bit : Bool) → length (set_bit bs k bit) ≡ length bs
unfolding set_bit
length-set_bit [] k bit = refl
length-set_bit (b ∷ bs) zero bit = refl
length-set_bit (b ∷ bs) (suc k) bit = omega (arith, length-set_bit bs k bit)

pub bit_at-set_bit :
    (bs : List Bool) (k : ℕ) (bit : Bool)
    → k < length bs
    → (j : ℕ) → bit_at (set_bit bs k bit) j ≡ (if j == k then bit else bit_at bs j)
unfolding set_bit bit_at
bit_at-set_bit [] k bit h j = absurd (omega arith)
bit_at-set_bit (b ∷ bs) zero bit h zero = ground arith
bit_at-set_bit (b ∷ bs) zero bit h (suc j) = ground arith
bit_at-set_bit (b ∷ bs) (suc k) bit h zero = ground arith
bit_at-set_bit (b ∷ bs) (suc k) bit h (suc j) =
    ground (arith, bit_at-set_bit bs k bit (omega arith) j)

pub set_bits-set :
    (bs : List Bool) (k : ℕ)
    → k < length bs
    → bit_at bs k ≡ false
    → set_bits (set_bit bs k true) ≡ suc (set_bits bs)
unfolding set_bits set_bit bit_at
set_bits-set [] k h free = absurd (omega arith)
set_bits-set (b ∷ bs) zero h free = ground arith
set_bits-set (b ∷ bs) (suc k) h free = ground (arith, set_bits-set bs k (omega arith) free)

pub set_bits-clear :
    (bs : List Bool) (k : ℕ)
    → bit_at bs k ≡ true
    → suc (set_bits (set_bit bs k false)) ≡ set_bits bs
unfolding set_bits set_bit bit_at
set_bits-clear [] k taken = ground arith
set_bits-clear (b ∷ bs) zero taken = ground arith
set_bits-clear (b ∷ bs) (suc k) taken = ground (arith, set_bits-clear bs k taken)

pub bit_at-length : (bs : List Bool) (k : ℕ) → bit_at bs k ≡ true → k < length bs
unfolding bit_at
bit_at-length [] k h = ground arith
bit_at-length (b ∷ bs) zero h = omega arith
bit_at-length (b ∷ bs) (suc k) h = omega (arith, bit_at-length bs k h)

pub set_bits-le : (bs : List Bool) → set_bits bs ≤ length bs
unfolding set_bits
set_bits-le [] = omega arith
set_bits-le (b ∷ bs) = ground (arith, set_bits-le bs)

-- With every bit set, the number is the length.
pub set_bits-full :
    (bs : List Bool) → ((k : ℕ) → k < length bs → bit_at bs k ≡ true) → set_bits bs ≡ length bs
unfolding set_bits bit_at
set_bits-full [] all_set = refl
set_bits-full (b ∷ bs) all_set =
    ground (arith, all_set 0 (omega arith), set_bits-full bs λ k h. all_set (suc k) (omega arith))

-- With as many bits set as there are, every bit is set.
pub full-set_bits :
    (bs : List Bool) → set_bits bs ≡ length bs → (k : ℕ) → k < length bs → bit_at bs k ≡ true
unfolding set_bits bit_at
full-set_bits [] h k lt = absurd (omega arith)
full-set_bits (b ∷ bs) h zero lt = ground (arith, set_bits-le bs)
full-set_bits (b ∷ bs) h (suc k) lt =
    full-set_bits bs (ground (arith, set_bits-le bs)) k (omega arith)

pub length-clear_bits : (n : ℕ) → length (clear_bits n) ≡ n
unfolding clear_bits
length-clear_bits zero = refl
length-clear_bits (suc n) = omega (arith, length-clear_bits n)

pub set_bits-clear_bits : (n : ℕ) → set_bits (clear_bits n) ≡ 0
unfolding clear_bits set_bits
set_bits-clear_bits zero = refl
set_bits-clear_bits (suc n) = set_bits-clear_bits n

pub bit_at-clear_bits : (n k : ℕ) → bit_at (clear_bits n) k ≡ false
unfolding clear_bits bit_at
bit_at-clear_bits zero k = refl
bit_at-clear_bits (suc n) zero = refl
bit_at-clear_bits (suc n) (suc k) = bit_at-clear_bits n k
