-- ===== src/Tests/Config.antt =====
-- A configuration of one device with a walk, validated and built.
use modbus_sim.Prelude.{[], ◌∷◌, ◌≡◌, refl, none, some, true, false, List}
use modbus_sim.Prelude.Integers.{pos}
use modbus_sim.Result.{ok, err, value_error}
use modbus_sim.Datastore.Value.{num, flag}
use modbus_sim.Datastore.Block.{make_block, set_slot}
use modbus_sim.Datastore.Device.{Device}
use modbus_sim.Datastore.Store.{DataStore, make_store}
use modbus_sim.Generators.{
  GeneratorBinding, random_walk, holding, make_generator, update, sample, clamp_u16, bound,
}
use modbus_sim.Config.{RegionSpec, DeviceSpec, check_config, build_datastore}
use modbus_sim.Datastore.Name.{default_name}
use modbus_sim.Config.Build.{IsBuilt}
use modbus_sim.Config.Total.{IsSpec, AreSpecs}
use modbus_sim.Config.Returns.{build_datastore_total}
use modbus_sim.Tests.Generators.{whole}

abbrev pub no_slots : RegionSpec whole
no_slots = record { size = 0; init = none; generators = [] }

abbrev pub boiler : DeviceSpec whole
boiler = record {
  unit_id = 17;
  name = "";
  coils = record { size = 2; init = some (1 ∷ []); generators = [] };
  discrete_inputs = no_slots;
  holding_registers = record {
    size = 2;
    init = some (7 ∷ []);
    generators =
        record {
          addr = 1;
          fn = "random_walk";
          args = ("start", pos 8) ∷ ("step", pos 5) ∷ ("min", pos 0) ∷ ("max", pos 10) ∷ [];
        }
        ∷ [];
  };
  input_registers = no_slots;
}

pub boiler_checked : check_config whole (boiler ∷ []) ≡ ok tt
unfolding check_config make_generator bound
boiler_checked = refl

-- Two devices at one unit id are refused.
twice : check_config whole (boiler ∷ boiler ∷ []) ≡ err value_error
unfolding check_config make_generator bound
twice = refl

abbrev pub built : Device
built = record {
  unit_id = 17;
  name = "device-17";
  coils = record { size = 2; values = flag true ∷ flag false ∷ [] };
  discrete_inputs = record { size = 0; values = [] };
  holding_registers = record { size = 2; values = num 7 ∷ num 10 ∷ [] };
  input_registers = record { size = 0; values = [] };
}

abbrev pub walk_binding : GeneratorBinding whole
walk_binding = record {
  unit_id = 17;
  target = holding;
  address = 1;
  generator = random_walk (pos 5) (pos 0) (pos 10) (pos 10) false;
}

abbrev pub bindings : List (GeneratorBinding whole)
bindings = walk_binding ∷ []

pub boiler_is_built : build_datastore whole (boiler ∷ []) ≡ ok (built ∷ [], bindings)
unfolding build_datastore make_generator bound make_block update sample clamp_u16 set_slot
    make_store default_name
boiler_is_built = refl

walk_made : IsSpec whole (record {
  addr = 1;
  fn = "random_walk";
  args = ("start", pos 8) ∷ ("step", pos 5) ∷ ("min", pos 0) ∷ ("max", pos 10) ∷ [];
})
unfolding make_generator bound sample clamp_u16
walk_made = record {
  generator = random_walk (pos 5) (pos 0) (pos 10) (pos 8) true;
  made = refl;
  value = 10;
  sampled = refl;
}

boiler-AreSpecs : AreSpecs whole boiler
boiler-AreSpecs = ((walk_made, tt), tt)

build_datastore_total_example :
    (o : DataStore × List (GeneratorBinding whole)) × (build_datastore whole (boiler ∷ []) ≡ ok o)
    × IsBuilt whole o
build_datastore_total_example =
    build_datastore_total whole (boiler ∷ []) boiler_checked (boiler-AreSpecs, tt)
