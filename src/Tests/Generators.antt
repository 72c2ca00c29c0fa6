-- ===== src/Tests/Generators.antt =====
-- The generators over whole numbers in place of floating-point ones, and the theorems at a walk.
use modbus_sim.Prelude.{
  zero, suc, Bool, true, false, not, [], ◌∷◌, ◌≡◌, ◌+◌, ◌-◌, ltb, if◌then◌else◌, refl, arith,
}
use modbus_sim.Prelude.Integers.{ℤ, pos, negsuc}
use modbus_sim.Result.{ok, err, value_error, type_error}
use modbus_sim.Datastore.Device.{IsValid}
use modbus_sim.Generators.Floats.{Runtime}
use modbus_sim.Generators.{
  Generator, random_walk, clamp_u16, bound, sample, make_generator, GeneratorBinding, holding,
  update,
}
use modbus_sim.Generators.Valid.{IsGenerator}
use modbus_sim.Generators.Update.{IsUpdated, update-IsUpdated}
use modbus_sim.Tests.Data.{sensor}

abbrev below : ℤ → ℤ → Bool
below (pos a) (pos b) = ltb a b
below (pos a) (negsuc b) = false
below (negsuc a) (pos b) = true
below (negsuc a) (negsuc b) = ltb b a

abbrev plus : ℤ → ℤ → ℤ
plus (pos a) (pos b) = pos (a + b)
plus (pos a) (negsuc b) = if ltb b a then pos (a - b - 1) else negsuc (b - a)
plus (negsuc a) (pos b) = if ltb a b then pos (b - a - 1) else negsuc (a - b)
plus (negsuc a) (negsuc b) = negsuc (a + b + 1)

abbrev minus : ℤ → ℤ
minus (pos zero) = pos 0
minus (pos (suc a)) = negsuc a
minus (negsuc a) = pos (a + 1)

pub below_irreflexive : (x : ℤ) → below x x ≡ false
below_irreflexive (pos a) = ground arith
below_irreflexive (negsuc a) = ground arith

-- A flat sine, and choices that alternate.
abbrev pub whole : Runtime
whole = record {
  Float = ℤ;
  Rng = Bool;
  zero = pos 0;
  two_pi = pos 6;
  lt = below;
  le = λ x y. not (below y x);
  plus = plus;
  mul = λ x y. pos 0;
  div = λ x y. x;
  neg = minus;
  sin = λ x. pos 0;
  rounded = λ x. ok x;
  seed_of = λ x. x;
  seeded = λ seed. true;
  choose = λ up. (up, not up);
  lt_irreflexive = below_irreflexive;
}

abbrev walk : Generator whole
walk = random_walk (pos 5) (pos 0) (pos 10) (pos 8) true

walk-IsGenerator : IsGenerator whole walk
walk-IsGenerator = (refl, (refl, refl))

-- A step up is cut off at the bound, the next one goes down.
step_up : sample whole walk (pos 1) ≡ (ok 10, random_walk (pos 5) (pos 0) (pos 10) (pos 10) false)
unfolding sample clamp_u16 bound
step_up = refl

make_walk :
    make_generator whole "random_walk"
      (("start", pos 8) ∷ ("step", pos 5) ∷ ("min", pos 0) ∷ ("max", pos 10) ∷ [])
    ≡ ok walk
unfolding make_generator bound
make_walk = refl

no_period : make_generator whole "sine" (("mean", pos 8) ∷ ("amp", pos 5) ∷ []) ≡ err type_error
unfolding make_generator
no_period = refl

unknown_name : make_generator whole "square" [] ≡ err value_error
unfolding make_generator
unknown_name = refl

sensor-IsValid : IsValid sensor
sensor-IsValid = omega arith

abbrev binding : GeneratorBinding whole
binding = record { unit_id = 1; target = holding; address = 2; generator = walk }

update-IsUpdated_example :
    IsUpdated whole (pos 1) binding sensor (update whole (pos 1) binding sensor)
    × IsValid (update whole (pos 1) binding sensor).1.1
    × IsGenerator whole (update whole (pos 1) binding sensor).1.0.generator
update-IsUpdated_example =
    update-IsUpdated whole (pos 1) binding sensor walk-IsGenerator sensor-IsValid
