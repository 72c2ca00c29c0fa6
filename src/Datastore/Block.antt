-- ===== src/Datastore/Block.antt =====
-- `MemoryBlock` of modbus_sim/datastore.py. Sizes, addresses and counts are not negative here, so the
-- tests for negative ones are left out.
pub mod Access
pub mod Valid
use modbus_sim.Prelude.{
  ℕ, ◌+◌, Option, none, some, List, [], ◌∷◌, ◌++◌, ltb, if◌then◌else◌, length, take, drop, set,
  replicate,
}
use Prim.Native.Nat.{◌-◌}
use modbus_sim.Result.{
  Result, ok, err, modbus_error, illegal_data_address, value_error, ◌>>=◌, ◌>>◌,
}
use modbus_sim.Datastore.Value.{Value}

pub record MemoryBlock : Type 0 where
  pub size : ℕ
  pub values : List Value

-- `list(values) if values is not None else []`
abbrev pub initial : Option (List Value) → List Value
initial none = []
initial (some values) = values

-- `__init__`
unfoldable pub make_block : ℕ → Option (List Value) → Value → Result MemoryBlock
make_block size values fill =
    let vals = initial values in
    if ltb size (length vals)
    then err value_error
    else ok (record { size = size; values = vals ++ replicate (size - length vals) fill })

unfoldable pub check : MemoryBlock → ℕ → ℕ → Result (Unit {0})
check b address count =
    if ltb b.size (address + count) then err (modbus_error illegal_data_address none) else ok tt

unfoldable pub read : MemoryBlock → ℕ → ℕ → Result (List Value)
unfolding check
read b address count = do check b address count; ok (take count (drop address b.values))

-- The assignment to the slice `[address : address + len(values)]`.
unfoldable pub write : MemoryBlock → ℕ → List Value → Result MemoryBlock
unfolding check
write b address values = do
  check b address (length values)
  ok (record b {
    values = take address b.values ++ values ++ drop (address + length values) b.values;
  })

unfoldable pub set_slot : MemoryBlock → ℕ → Value → Result MemoryBlock
unfolding check
set_slot b address value = do
  check b address 1
  ok (record b { values = set b.values address value })

unfoldable pub snapshot : MemoryBlock → List Value
snapshot b = b.values

unfoldable pub len : MemoryBlock → ℕ
len b = b.size
