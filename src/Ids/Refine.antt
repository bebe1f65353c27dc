-- ===== src/Ids/Refine.antt =====
-- id.rs: the generator as an implementation of a set of ids below a capacity: calls and their replies,
-- the steps that a set allows, and runs of calls.
use Prim.Native.Nat.{◌<◌}
use mathlib.Core.Path.{subst}
use bolt_load.Prelude.{
  ℕ, Bool, true, false, Option, none, some, List, [], ◌∷◌, ◌≡◌, refl, sym, ◌==◌, if◌then◌else◌,
  length, u64_mod,
}
use bolt_load.Ids.Generator.{Generator, new, bit_at, set_bit, clear_bits, next, release}
use bolt_load.Ids.Bits.{
  length-set_bit, bit_at-set_bit, bit_at-length, length-clear_bits, bit_at-clear_bits,
}
use bolt_load.Ids.Valid.{
  IsValid, Next, all_taken, takes, next_cases, next-IsValid, Release, frees, ignores, release_cases,
  release-IsValid, new-IsValid,
}

pub data Call : Type 0 where
  next_id : Call
  release_id : ℕ → Call

pub data Reply : Type 0 where
  given : Option ℕ → Reply
  released : Bool → Reply

unfoldable pub call : Generator → Call → Generator × Reply
unfolding next release
call g next_id = let (g', id) = next g in (g', given id)
call g (release_id id) = let (g', done) = release g id in (g', released done)

unfoldable pub calls : Generator → List Call → List (Call × Reply)
unfolding call
calls g [] = []
calls g (c ∷ cs) = let (g', r) = call g c in (c, r) ∷ calls g' cs

-- A set of ids that are in use.
abbrev pub Ids : Type 0
Ids = ℕ → Bool

abbrev pub none_used : Ids
none_used k = false

abbrev pub with_id : ℕ → Ids → Ids
with_id id used k = if k == id then true else used k

abbrev pub without_id : ℕ → Ids → Ids
without_id id used k = if k == id then false else used k

-- What a set of ids below `cap` promises for one call.
pub data Allows (cap : ℕ) (used : Ids) : Call → Reply → Ids → Type 0 where
  gives :
      (id : ℕ)
      → id < cap
      → used id ≡ false
      → Allows cap used next_id (given (some id)) (with_id id used)
  is_full : ((k : ℕ) → k < cap → used k ≡ true) → Allows cap used next_id (given none) used
  takes_back :
      (id : ℕ)
      → used id ≡ true
      → Allows cap used (release_id id) (released true) (without_id id used)
  refuses : (id : ℕ) → used id ≡ false → Allows cap used (release_id id) (released false) used

-- What the set promises for a run.
pub data AllowsAll (cap : ℕ) : Ids → List (Call × Reply) → Type 0 where
  done : {used : Ids} → AllowsAll cap used []
  onward :
      {used : Ids} {c : Call} {r : Reply} {used' : Ids} {rest : List (Call × Reply)}
      → Allows cap used c r used'
      → AllowsAll cap used' rest
      → AllowsAll cap used ((c, r) ∷ rest)

-- The ids of a generator.
abbrev pub view : Generator → Ids
view g = bit_at g.bits

view-set :
    (bs : List Bool) (id : ℕ)
    → id < length bs
    → with_id id (bit_at bs) ≡ bit_at (set_bit bs id true)
view-set bs id lt = λ i k. sym (bit_at-set_bit bs id true lt k) i

view-clear :
    (bs : List Bool) (id : ℕ)
    → id < length bs
    → without_id id (bit_at bs) ≡ bit_at (set_bit bs id false)
view-clear bs id lt = λ i k. sym (bit_at-set_bit bs id false lt k) i

pub call-Allows :
    (g : Generator) (c : Call)
    → IsValid g
    → Allows (length g.bits) (view g) c (call g c).1 (view (call g c).0)
unfolding call
call-Allows g next_id valid = of (next g) (next_cases g valid)
  where
    of :
        (r : Generator × Option ℕ)
        → Next g r
        → Allows (length g.bits) (view g) next_id (given r.1) (view r.0)
    of _ (all_taken h) = is_full h
    of _ (takes k lt free) =
        subst (Allows (length g.bits) (view g) next_id (given (some k))) (view-set g.bits k lt)
          (gives k lt free)
call-Allows g (release_id id) valid = of (release g id) (release_cases g id)
  where
    of :
        (r : Generator × Bool)
        → Release g id r
        → Allows (length g.bits) (view g) (release_id id) (released r.1) (view r.0)
    of _ (frees taken) =
        subst (Allows (length g.bits) (view g) (release_id id) (released true))
          (view-clear g.bits id (bit_at-length g.bits id taken)) (takes_back id taken)
    of _ (ignores free) = refuses id free

call-length : (g : Generator) (c : Call) → IsValid g → length (call g c).0.bits ≡ length g.bits
unfolding call
call-length g next_id valid = of (next g) (next_cases g valid)
  where
    of : (r : Generator × Option ℕ) → Next g r → length r.0.bits ≡ length g.bits
    of _ (all_taken _) = refl
    of _ (takes k _ _) = length-set_bit g.bits k true
call-length g (release_id id) valid = of (release g id) (release_cases g id)
  where
    of : (r : Generator × Bool) → Release g id r → length r.0.bits ≡ length g.bits
    of _ (frees _) = length-set_bit g.bits id false
    of _ (ignores _) = refl

call-IsValid : (g : Generator) (c : Call) → IsValid g → IsValid (call g c).0
unfolding call
call-IsValid g next_id valid = next-IsValid g valid
call-IsValid g (release_id id) valid = release-IsValid g id valid

calls-AllowsAll :
    (g : Generator) (cs : List Call) → IsValid g → AllowsAll (length g.bits) (view g) (calls g cs)
unfolding calls
calls-AllowsAll g [] valid = done
calls-AllowsAll g (c ∷ cs) valid = onward (call-Allows g c valid) (
    subst (λ cap. AllowsAll cap (view (call g c).0) (calls (call g c).0 cs)) (call-length g c valid)
      (calls-AllowsAll (call g c).0 cs (call-IsValid g c valid)))

-- A new generator implements a set of ids below its capacity, which starts empty: in every sequence of
-- calls, `next` gives an id below the capacity that is not in use, and fails only when each of them is;
-- `release` reports whether the id was in use, and it is not in use any more.
pub new_refines :
    (cap : ℕ) (cs : List Call) → cap < u64_mod → AllowsAll cap none_used (calls (new cap) cs)
new_refines cap cs h =
    subst (λ n. AllowsAll n none_used (calls (new cap) cs)) (length-clear_bits cap)
      (subst (λ used. AllowsAll (length (clear_bits cap)) used (calls (new cap) cs))
        (λ i k. bit_at-clear_bits cap k i) (calls-AllowsAll (new cap) cs (new-IsValid cap h)))
