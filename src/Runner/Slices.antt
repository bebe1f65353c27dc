-- ===== src/Runner/Slices.antt =====
-- The parts of a sequence of bytes, and sequences that begin another.
use bolt_load.Prelude.{
  ℕ, zero, suc, ◌+◌, ◌-◌, ◌≤◌, ◌≡◌, refl, sym, ap, ◌∙◌, [], ◌∷◌, ◌++◌, arith, length,
}
use bolt_load.Manager.Types.{Bytes}
use bolt_load.Manager.Data.{truncate}
use bolt_load.Runner.Handle.{skip}

pub length-skip : (n : ℕ) (bs : Bytes) → length (skip n bs) ≡ length bs - n
unfolding skip
length-skip zero bs = omega arith
length-skip (suc n) [] = omega arith
length-skip (suc n) (b ∷ bs) = omega (arith, length-skip n bs)

pub truncate-skip : (n : ℕ) (bs : Bytes) → truncate n bs ++ skip n bs ≡ bs
unfolding truncate skip
truncate-skip zero bs = refl
truncate-skip (suc n) [] = refl
truncate-skip (suc n) (b ∷ bs) = ap (λ r. b ∷ r) (truncate-skip n bs)

pub truncate_all : (n : ℕ) (bs : Bytes) → length bs ≤ n → truncate n bs ≡ bs
unfolding truncate
truncate_all zero [] h = refl
truncate_all zero (b ∷ bs) h = absurd (omega arith)
truncate_all (suc n) [] h = refl
truncate_all (suc n) (b ∷ bs) h = ap (λ r. b ∷ r) (truncate_all n bs (omega arith))

pub skip_all : (n : ℕ) (bs : Bytes) → length bs ≤ n → skip n bs ≡ []
unfolding skip
skip_all zero [] h = refl
skip_all zero (b ∷ bs) h = absurd (omega arith)
skip_all (suc n) [] h = refl
skip_all (suc n) (b ∷ bs) h = skip_all n bs (omega arith)

pub skip-skip : (n m : ℕ) (bs : Bytes) → skip m (skip n bs) ≡ skip (n + m) bs
unfolding skip
skip-skip zero m bs = let e : 0 + m ≡ m = omega arith in rw e refl
skip-skip (suc n) m [] = skip_all m [] (omega arith) ∙ sym (skip_all (suc n + m) [] (omega arith))
skip-skip (suc n) m (b ∷ bs) =
    let e : suc n + m ≡ suc (n + m) = omega arith in rw e (skip-skip n m bs)

-- The first sequence begins the second.
abbrev pub IsPrefix : Bytes → Bytes → Type 0
IsPrefix xs ys = (rest : Bytes) × (xs ++ rest ≡ ys)
