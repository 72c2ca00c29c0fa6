-- ===== src/Generators.antt =====
-- modbus_sim/generators.py: the three generators, `make_generator` and `GeneratorBinding`. The arguments of a
-- generator are numbers. A binding names its device's region instead of pointing into it.
pub mod Floats
pub mod Valid
pub mod Update
use Prim.Native.String as Text
use Prim.Native.Nat.{Ordering}
use Prim.Native.String.{String}
use modbus_sim.Prelude.{
  ℕ, Bool, true, false, ◌||◌, Option, none, some, List, [], ◌∷◌, map, ltb, if◌then◌else◌,
}
use mathlib.Core.Option as Opt
use modbus_sim.Prelude.Integers.{ℤ, pos, negsuc}
use modbus_sim.Result.{Result, ok, err, value_error, type_error, ◌>>=◌, ◌>>◌}
use modbus_sim.Datastore.Value.{num}
use modbus_sim.Datastore.Block.{MemoryBlock, set_slot}
use modbus_sim.Datastore.Device.{Device}
use modbus_sim.Generators.Floats.{Runtime}

abbrev same_text : String → String → Bool
same_text a b = elim (Text.compare a b) [ Ordering.eq ↦ true | _ ↦ false ]

-- An integer brought into the range from 0 to 65535.
abbrev pub clamp : ℤ → ℕ
clamp (pos n) = if ltb 65535 n then 65535 else n
clamp (negsuc n) = 0

-- Which of the register regions a binding writes to.
pub data Target : Type 0 where
  holding input : Target

abbrev pub target_block : Target → Device → MemoryBlock
target_block holding device = device.holding_registers
target_block input device = device.input_registers

abbrev pub with_block : Target → Device → MemoryBlock → Device
with_block holding device block = record device { holding_registers = block }
with_block input device block = record device { input_registers = block }

module _ (P : Runtime) where
  -- A walk has its step, its bounds, its value and its source of random choices.
  pub data Generator : Type 0 where
    constant : ℕ → Generator
    sine : P.Float → P.Float → P.Float → Generator
    random_walk : P.Float → P.Float → P.Float → P.Float → P.Rng → Generator

  unfoldable pub clamp_u16 : P.Float → Result ℕ
  clamp_u16 value = do ivalue ← P.rounded value; ok (clamp ivalue)

  unfoldable pub bound : P.Float → P.Float → P.Float → P.Float
  bound min max value = if P.lt value min then min else if P.lt max value then max else value

  pub make_constant : P.Float → Result Generator
  make_constant value = do v ← clamp_u16 value; ok (constant v)

  pub make_sine : P.Float → P.Float → P.Float → Result Generator
  make_sine mean amp period_s =
      if P.le period_s P.zero then err value_error else ok (sine mean amp period_s)

  pub make_random_walk : P.Float → P.Float → P.Float → P.Float → Option ℤ → Result Generator
  make_random_walk start step min max seed =
      if P.lt max min
      then err value_error
      else ok (random_walk step min max (bound min max start) (P.seeded seed))

  -- `sample`: the value, and the generator afterwards, which moved even where `clamp_u16` raises.
  unfoldable pub sample : Generator → P.Float → Result ℕ × Generator
  sample (constant value) elapsed = (ok value, constant value)
  sample (sine mean amp period_s) elapsed = (
    clamp_u16 (P.plus mean (P.mul amp (P.sin (P.div (P.mul P.two_pi elapsed) period_s)))),
    sine mean amp period_s,
  )
  sample (random_walk step min max value rng) elapsed =
      let (up, rng') = P.choose rng in
      let value' = bound min max (P.plus value (if up then step else P.neg step)) in
      (clamp_u16 value', random_walk step min max value' rng')

  -- The keyword arguments of a call.
  abbrev pub Args : Type 0
  Args = List (String × P.Float)

  argument : String → Args → Option P.Float
  argument name [] = none
  argument name ((key, value) ∷ args) =
      if same_text key name then some value else argument name args

  -- An argument without which the call raises `TypeError`.
  required : String → Args → Result P.Float
  unfolding argument
  required name args = elim (argument name args) [ none ↦ err type_error | some value ↦ ok value ]

  takes : List String → String → Bool
  takes [] key = false
  takes (name ∷ names) key = same_text key name || takes names key

  -- A call with an argument that the callee does not take raises `TypeError`.
  only : List String → Args → Result (Unit {0})
  unfolding takes
  only names [] = ok tt
  only names ((key, value) ∷ args) = if takes names key then only names args else err type_error

  call_constant : Args → Result Generator
  unfolding only required make_constant
  call_constant args = do
    only ("value" ∷ []) args
    value ← required "value" args
    make_constant value

  call_sine : Args → Result Generator
  unfolding only required make_sine
  call_sine args = do
    only ("mean" ∷ "amp" ∷ "period_s" ∷ []) args
    mean ← required "mean" args
    amp ← required "amp" args
    period_s ← required "period_s" args
    make_sine mean amp period_s

  call_random_walk : Args → Result Generator
  unfolding only required argument make_random_walk
  call_random_walk args = do
    only ("start" ∷ "step" ∷ "min" ∷ "max" ∷ "seed" ∷ []) args
    start ← required "start" args
    step ← required "step" args
    min ← required "min" args
    max ← required "max" args
    make_random_walk start step min max (Opt.map P.seed_of (argument "seed" args))

  unfoldable pub make_generator : String → Args → Result Generator
  unfolding call_constant call_sine call_random_walk
  make_generator fn args =
      if same_text fn "constant"
      then call_constant args
      else if same_text fn "sine"
      then call_sine args
      else if same_text fn "random_walk"
      then call_random_walk args
      else err value_error

  -- A generator wired to one register slot of the device of a unit.
  pub record GeneratorBinding : Type 0 where
    pub unit_id : ℕ
    pub target : Target
    pub address : ℕ
    pub generator : Generator

  -- The value returned after `set`, and the device.
  abbrev pub slot_written : GeneratorBinding → Device → ℕ → Result MemoryBlock → Result ℕ × Device
  slot_written binding device value (ok block) = (ok value, with_block binding.target device block)
  slot_written binding device value (err e) = (err e, device)

  abbrev pub write_value : GeneratorBinding → Device → Result ℕ → Result ℕ × Device
  write_value binding device (err e) = (err e, device)
  write_value binding device (ok value) =
      slot_written binding device value
        (set_slot (target_block binding.target device) binding.address (num value))

  -- `update`: the value, and the binding and the device afterwards.
  unfoldable pub update :
      P.Float → GeneratorBinding → Device → Result ℕ × (GeneratorBinding × Device)
  unfolding sample
  update elapsed binding device =
      let (value, generator) = sample binding.generator elapsed in
      let (result, device') = write_value binding device value in
      (result, (record binding { generator = generator }, device'))
