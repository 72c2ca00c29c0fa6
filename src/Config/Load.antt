-- ===== src/Config/Load.antt =====
-- `load_config` and `load_datastore` of modbus_sim/config.py, from what `yaml.safe_load` returned: the models with their integers,
-- of either sign, and defaults filled in. A number below the bound of its field fails validation, as does
-- an initial value below 0; where several checks fail, all of them raise `ValueError`.
use modbus_sim.Prelude.{ℕ, ◌≡◌, subst, Option, none, some, List, [], ◌∷◌, All}
use modbus_sim.Prelude.Integers.{ℤ, pos, negsuc}
use Prim.Native.String.{String}
use modbus_sim.Result.{Result, ok, err, value_error, ◌>>=◌, bind-eq-ok, ok_injective}
use modbus_sim.Datastore.Store.{DataStore}
use modbus_sim.Generators.Floats.{Runtime}
use modbus_sim.Generators.{Args, GeneratorBinding}
use modbus_sim.Config.{GeneratorSpec, RegionSpec, DeviceSpec, check_config, build_datastore}
use modbus_sim.Config.Build.{IsBuilt, build_datastore-IsBuilt}
use modbus_sim.Config.Wired.{IsWired, build_datastore-AreWired}

-- A number that is not negative.
abbrev pub at_least_zero : ℤ → Result ℕ
at_least_zero (pos n) = ok n
at_least_zero (negsuc n) = err value_error

abbrev pub traverse {ℓ κ} : {A : Type ℓ} {B : Type κ} → (A → Result B) → List A → Result (List B)
traverse read [] = ok []
traverse read (x ∷ xs) = do y ← read x; ys ← traverse read xs; ok (y ∷ ys)

abbrev pub read_init : Option (List ℤ) → Result (Option (List ℕ))
read_init none = ok none
read_init (some values) = do init ← traverse at_least_zero values; ok (some init)

module _ (P : Runtime) where
  pub record RawGenerator : Type 0 where
    pub addr : ℤ
    pub fn : String
    pub args : Args P

  pub record RawRegion : Type 0 where
    pub size : ℤ
    pub init : Option (List ℤ)
    pub generators : List RawGenerator

  pub record RawDevice : Type 0 where
    pub unit_id : ℤ
    pub name : String
    pub coils : RawRegion
    pub discrete_inputs : RawRegion
    pub holding_registers : RawRegion
    pub input_registers : RawRegion

  abbrev pub read_generator : RawGenerator → Result (GeneratorSpec P)
  read_generator raw = do
    addr ← at_least_zero raw.addr
    ok (record { addr = addr; fn = raw.fn; args = raw.args })

  abbrev pub read_region : RawRegion → Result (RegionSpec P)
  read_region raw = do
    size ← at_least_zero raw.size
    init ← read_init raw.init
    generators ← traverse read_generator raw.generators
    ok (record { size = size; init = init; generators = generators })

  abbrev pub read_device : RawDevice → Result (DeviceSpec P)
  read_device raw = do
    unit_id ← at_least_zero raw.unit_id
    coils ← read_region raw.coils
    discrete_inputs ← read_region raw.discrete_inputs
    holding_registers ← read_region raw.holding_registers
    input_registers ← read_region raw.input_registers
    ok (record {
      unit_id = unit_id;
      name = raw.name;
      coils = coils;
      discrete_inputs = discrete_inputs;
      holding_registers = holding_registers;
      input_registers = input_registers;
    })

  -- `Config.model_validate`, on the list of devices.
  unfoldable pub load_config : List RawDevice → Result (List (DeviceSpec P))
  load_config raw = do devices ← traverse read_device raw; _ ← check_config P devices; ok devices

  unfoldable pub load_datastore : List RawDevice → Result (DataStore × List (GeneratorBinding P))
  unfolding load_config
  load_datastore raw = do devices ← load_config raw; build_datastore P devices

  -- A configuration that was loaded passed the validators.
  load_config-eq-ok :
      (raw : List RawDevice) {devices : List (DeviceSpec P)}
      → load_config raw ≡ ok devices
      → check_config P devices ≡ ok tt
  unfolding load_config
  load_config-eq-ok raw h =
      let (read, _, checked) = bind-eq-ok (traverse read_device raw) _ h in
      let (_, passed, same) = bind-eq-ok (check_config P read) _ checked in
      subst (λ d. check_config P d ≡ ok tt) (ok_injective same) passed

  -- Whatever `load_datastore` returns is a store of valid devices with different unit ids, with bindings whose generators
  -- are sound and whose units are all held by the store.
  pub load_datastore-IsBuilt :
      (raw : List RawDevice) {o : DataStore × List (GeneratorBinding P)}
      → load_datastore raw ≡ ok o
      → IsBuilt P o × All (IsWired P o.0) o.1
  unfolding load_datastore
  load_datastore-IsBuilt raw h =
      let (devices, loaded, built) = bind-eq-ok (load_config raw) _ h in
      (
        build_datastore-IsBuilt P devices (load_config-eq-ok raw loaded) built,
        build_datastore-AreWired P devices built,
      )
