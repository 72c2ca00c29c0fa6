-- ===== src/Generators/Floats.antt =====
-- What modbus_sim/generators.py takes from Python: floating-point numbers and `random.Random`.
use modbus_sim.Prelude.{Bool, false, Option, ◌≡◌}
use modbus_sim.Prelude.Integers.{ℤ}
use modbus_sim.Result.{Result}

-- `rounded` is `int(round(x))`, which raises for what is not finite. `choose` tells whether `choice` took the
-- second of two values. No number is below itself, nan included.
pub record Runtime : Type 1 where
  pub Float : Type 0
  pub Rng : Type 0
  pub zero : Float
  pub two_pi : Float
  pub lt : Float → Float → Bool
  pub le : Float → Float → Bool
  pub plus : Float → Float → Float
  pub mul : Float → Float → Float
  pub div : Float → Float → Float
  pub neg : Float → Float
  pub sin : Float → Float
  pub rounded : Float → Result ℤ
  pub seed_of : Float → ℤ
  pub seeded : Option ℤ → Rng
  pub choose : Rng → Bool × Rng
  pub lt_irreflexive : (x : Float) → lt x x ≡ false
