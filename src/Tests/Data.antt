-- ===== src/Tests/Data.antt =====
-- A device and a store to test with.
use modbus_sim.Prelude.{[], ◌∷◌, true, false}
use modbus_sim.Datastore.Value.{num, flag}
use modbus_sim.Datastore.Block.{MemoryBlock}
use modbus_sim.Datastore.Device.{Device}
use modbus_sim.Datastore.Store.{DataStore}

abbrev pub coil_block : MemoryBlock
coil_block = record { size = 4; values = flag true ∷ flag false ∷ flag false ∷ flag true ∷ [] }

abbrev pub register_block : MemoryBlock
register_block = record { size = 4; values = num 250 ∷ num 0 ∷ num 7 ∷ num 65535 ∷ [] }

abbrev pub sensor : Device
sensor = record {
  unit_id = 1;
  name = "sensor";
  coils = coil_block;
  discrete_inputs = coil_block;
  holding_registers = register_block;
  input_registers = register_block;
}

abbrev pub meter : Device
meter = record sensor { unit_id = 2; name = "meter" }

abbrev pub plant : DataStore
plant = sensor ∷ meter ∷ []
