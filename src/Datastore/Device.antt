-- ===== src/Datastore/Device.antt =====
-- `Device` of modbus_sim/datastore.py, less its lock.
use Prim.Native.String.{String}
use modbus_sim.Prelude.{ℕ, IsWord}
use modbus_sim.Datastore.Value.{Value, to_int}
use modbus_sim.Datastore.Block.{MemoryBlock}
use modbus_sim.Datastore.Block.Valid

pub record Device : Type 0 where
  pub unit_id : ℕ
  pub name : String
  pub coils : MemoryBlock
  pub discrete_inputs : MemoryBlock
  pub holding_registers : MemoryBlock
  pub input_registers : MemoryBlock

-- Any value can stand in a bit region, which is read through `bool`.
abbrev pub AnyValue : Value → Type 0
AnyValue v = Unit

-- A register region holds what reads as a 16-bit number.
abbrev pub IsRegister : Value → Type 0
IsRegister v = IsWord (to_int v)

-- All four regions are full, and the registers are 16-bit numbers.
pub record IsValid (d : Device) : Type 0 where
  pub coils : Valid.IsValid AnyValue d.coils
  pub discrete_inputs : Valid.IsValid AnyValue d.discrete_inputs
  pub holding_registers : Valid.IsValid IsRegister d.holding_registers
  pub input_registers : Valid.IsValid IsRegister d.input_registers
