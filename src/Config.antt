-- ===== src/Config.antt =====
-- modbus_sim/config.py: the specifications with their validators, and `build_datastore`. Reading YAML and the
-- type checks of pydantic are left out; numbers are not negative, and a failed validation is a `ValueError`.
pub mod Valid
pub mod Build
pub mod Total
pub mod Returns
pub mod Wired
pub mod Load
use Prim.Native.String.{String}
use modbus_sim.Prelude.{
  ℕ, Bool, true, false, ◌&&◌, ◌||◌, not, Option, none, some, List, [], ◌∷◌, ◌++◌, map, ltb, leb,
  ◌==◌, if◌then◌else◌, length,
}
use mathlib.Core.Option as Opt
use modbus_sim.Result.{Exception, Result, ok, err, value_error, type_error, ◌>>=◌, ◌>>◌}
use modbus_sim.Datastore.Value.{Value, num, flag}
use modbus_sim.Datastore.Block.{MemoryBlock, make_block}
use modbus_sim.Datastore.Device.{Device}
use modbus_sim.Datastore.Store.{DataStore, make_store}
use modbus_sim.Generators.Floats.{Runtime}
use modbus_sim.Generators.{
  Args, Generator, GeneratorBinding, Target, holding, input, make_generator, update,
}
use modbus_sim.Datastore.Name.{default_name, name_or}

-- `raise ValueError` unless the test holds.
abbrev pub require : Bool → Result (Unit {0})
require true = ok tt
require false = err value_error

abbrev pub check_all {ℓ} : {A : Type ℓ} → (A → Result (Unit {0})) → List A → Result (Unit {0})
check_all check [] = ok tt
check_all check (x ∷ xs) = check x >> check_all check xs

abbrev pub every : (ℕ → Bool) → List ℕ → Bool
every test [] = true
every test (v ∷ vs) = test v && every test vs

-- A test of the initial values, where there are any.
abbrev pub each_init : (ℕ → Bool) → Option (List ℕ) → Bool
each_init test none = true
each_init test (some values) = every test values

abbrev pub fits_in : ℕ → Option (List ℕ) → Bool
fits_in size none = true
fits_in size (some values) = leb (length values) size

-- `TypeError` and `ValueError` are turned into `ValueError`, any other exception passes on.
abbrev pub is_made {ℓ} : {A : Type ℓ} → Result A → Result (Unit {0})
is_made (ok generator) = ok tt
is_made (err type_error) = err value_error
is_made (err e) = err e

abbrev pub is_bit : ℕ → Bool
is_bit v = v == 0 || v == 1

abbrev pub is_word : ℕ → Bool
is_word v = leb v 0xFFFF

abbrev pub values_of : (ℕ → Value) → Option (List ℕ) → Option (List Value)
values_of put none = none
values_of put (some init) = some (map put init)

module _ (P : Runtime) where
  pub record GeneratorSpec : Type 0 where
    pub addr : ℕ
    pub fn : String
    pub args : Args P

  pub record RegionSpec : Type 0 where
    pub size : ℕ
    pub init : Option (List ℕ)
    pub generators : List GeneratorSpec

  pub record DeviceSpec : Type 0 where
    pub unit_id : ℕ
    pub name : String
    pub coils : RegionSpec
    pub discrete_inputs : RegionSpec
    pub holding_registers : RegionSpec
    pub input_registers : RegionSpec

  -- `addr` in range, and `_check_args`.
  pub check_generator : GeneratorSpec → Result (Unit {0})
  check_generator spec =
      require (leb spec.addr 0xFFFF) >> is_made (make_generator P spec.fn spec.args)

  -- `size` in range, the generators, and `_check_bounds`.
  pub check_region : RegionSpec → Result (Unit {0})
  check_region region =
      require (leb region.size 0x10000)
      >> check_all check_generator region.generators
      >> require (fits_in region.size region.init)
      >> check_all (λ spec. require (ltb spec.addr region.size)) region.generators

  abbrev no_generators : List GeneratorSpec → Bool
  no_generators [] = true
  no_generators (_ ∷ _) = false

  abbrev pub check_bits : RegionSpec → Result (Unit {0})
  check_bits region =
      require (no_generators region.generators) >> require (each_init is_bit region.init)

  abbrev pub check_words : RegionSpec → Result (Unit {0})
  check_words region = require (each_init is_word region.init)

  -- `unit_id` in range, the regions, and `_check_regions`.
  pub check_device : DeviceSpec → Result (Unit {0})
  check_device spec =
      require (leb 1 spec.unit_id && leb spec.unit_id 247)
      >> check_region spec.coils
      >> check_region spec.discrete_inputs
      >> check_region spec.holding_registers
      >> check_region spec.input_registers
      >> check_bits spec.coils
      >> check_bits spec.discrete_inputs
      >> check_words spec.holding_registers
      >> check_words spec.input_registers

  abbrev pub member : ℕ → List ℕ → Bool
  member unit_id [] = false
  member unit_id (seen ∷ more) = seen == unit_id || member unit_id more

  -- The loop of `_unique_unit_ids`, with the unit ids seen.
  pub unique_unit_ids : List ℕ → List DeviceSpec → Result (Unit {0})
  unique_unit_ids seen [] = ok tt
  unique_unit_ids seen (spec ∷ specs) =
      require (not (member spec.unit_id seen)) >> unique_unit_ids (spec.unit_id ∷ seen) specs

  -- The validation of a `Config`, which is its list of devices.
  unfoldable pub check_config : List DeviceSpec → Result (Unit {0})
  unfolding check_device check_region check_generator unique_unit_ids
  check_config devices = check_all check_device devices >> unique_unit_ids [] devices

  pub build_bits : RegionSpec → Result MemoryBlock
  build_bits region =
      make_block region.size (values_of (λ v. flag (not (v == 0))) region.init) (flag false)

  pub build_words : RegionSpec → Result MemoryBlock
  build_words region = make_block region.size (values_of num region.init) (num 0)

  -- The device of a specification, before its generators are seeded.
  pub build_blocks : DeviceSpec → Result Device
  unfolding build_bits build_words
  build_blocks spec = do
    coils ← build_bits spec.coils
    discrete_inputs ← build_bits spec.discrete_inputs
    holding_registers ← build_words spec.holding_registers
    input_registers ← build_words spec.input_registers
    ok (record {
      unit_id = spec.unit_id;
      name = name_or spec.name (default_name spec.unit_id);
      coils = coils;
      discrete_inputs = discrete_inputs;
      holding_registers = holding_registers;
      input_registers = input_registers;
    })

  -- The bindings of one region, each seeded with its value at time 0, and the device afterwards.
  pub bind_region :
      Target → List GeneratorSpec → Device → Result (List (GeneratorBinding P) × Device)
  bind_region target [] device = ok ([], device)
  bind_region target (spec ∷ specs) device = do
    generator ← make_generator P spec.fn spec.args
    let binding : GeneratorBinding P = record {
      unit_id = device.unit_id;
      target = target;
      address = spec.addr;
      generator = generator;
    }
    let (seeded, (binding', device')) = update P P.zero binding device
    _ ← seeded
    (bindings, device'') ← bind_region target specs device'
    ok (binding' ∷ bindings, device'')

  pub build_device : DeviceSpec → Result (List (GeneratorBinding P) × Device)
  unfolding build_blocks bind_region
  build_device spec = do
    device ← build_blocks spec
    (on_holding, device') ← bind_region holding spec.holding_registers.generators device
    (on_input, device'') ← bind_region input spec.input_registers.generators device'
    ok (on_holding ++ on_input, device'')

  pub build_all : List DeviceSpec → Result (List (GeneratorBinding P) × List Device)
  unfolding build_device
  build_all [] = ok ([], [])
  build_all (spec ∷ specs) = do
    (bindings, device) ← build_device spec
    (more, devices) ← build_all specs
    ok (bindings ++ more, device ∷ devices)

  unfoldable pub build_datastore : List DeviceSpec → Result (DataStore × List (GeneratorBinding P))
  unfolding build_all
  build_datastore devices = do
    (bindings, built) ← build_all devices
    store ← make_store built
    ok (store, bindings)
