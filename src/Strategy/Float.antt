-- ===== src/Strategy/Float.antt =====
-- The `f64` operations that the strategies use. Floating-point arithmetic is not part of the
-- repository: a `Float` is a parameter of the definitions, without any law.
use bolt_load.Prelude.{ℕ, Bool}

pub record Float : Type 1 where
  pub Carrier : Type 0
  -- `as f64`, and the literal of that many tenths.
  pub of_nat : ℕ → Carrier
  pub tenths : ℕ → Carrier
  pub add : Carrier → Carrier → Carrier
  pub sub : Carrier → Carrier → Carrier
  pub mul : Carrier → Carrier → Carrier
  pub div : Carrier → Carrier → Carrier
  pub abs : Carrier → Carrier
  pub lt : Carrier → Carrier → Bool
  pub le : Carrier → Carrier → Bool
  -- `as u64`, which saturates.
  pub to_nat : Carrier → ℕ
