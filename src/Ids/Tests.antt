-- ===== src/Ids/Tests.antt =====
-- id.rs: a run of the generator on two ids, and the instances of the theorems.
use bolt_load.Prelude.{true, false, none, some, [], ◌∷◌, ◌≡◌, refl, arith, List, add64, sub64}
use bolt_load.Ids.Generator.{new, clear_bits}
use bolt_load.Ids.Refine.{
  Call, Reply, next_id, release_id, given, released, calls, AllowsAll, none_used, new_refines,
}

abbrev script : List Call
script = next_id ∷ next_id ∷ next_id ∷ release_id 0 ∷ release_id 0 ∷ next_id ∷ []

abbrev replies : List (Call × Reply)
replies =
    (next_id, given (some 0))
    ∷ (next_id, given (some 1))
    ∷ (next_id, given none)
    ∷ (release_id 0, released true)
    ∷ (release_id 0, released false)
    ∷ (next_id, given (some 0))
    ∷ []

script_result : calls (new 2) script ≡ replies
unfolding calls clear_bits add64 sub64
script_result = refl

new_refines_example : AllowsAll 2 none_used (calls (new 2) script)
new_refines_example = new_refines 2 script (omega arith)
