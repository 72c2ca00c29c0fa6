-- ===== src/Dispatcher/Verdict.antt =====
-- Which requests are refused, and with which exception code: a description of `handle_request`
-- that does not follow its control flow.
use modbus_sim.Prelude.{
  ℕ, ◌+◌, ◌≡◌, ◌&&◌, not, Option, none, some, List, [], ◌∷◌, map, arith, ltb, leb, if◌then◌else◌,
  length, take, drop, length-map,
}
use modbus_sim.Result.{
  ModbusError, illegal_data_address, illegal_data_value, Result, ok, err, modbus_error,
}
use modbus_sim.Frame.Request.{
  Request, read_coils_request, read_discrete_inputs_request, read_holding_registers_request,
  read_input_registers_request, write_single_coil_request, write_single_register_request,
  write_multiple_coils_request, write_multiple_registers_request,
}
use modbus_sim.Frame.Response.{
  Response, read_coils_response, read_discrete_inputs_response, read_holding_registers_response,
  read_input_registers_response, write_single_coil_response, write_single_register_response,
  write_multiple_coils_response, write_multiple_registers_response,
}
use modbus_sim.Datastore.Value.{Value, num, flag, to_bool, to_int}
use modbus_sim.Datastore.Block.{MemoryBlock, read, write}
use modbus_sim.Datastore.Block.Valid.{spliced}
use modbus_sim.Datastore.Device.{Device}
use modbus_sim.Dispatcher.{handle_request}

-- The first slot, the number of slots and the region that a request is about.
abbrev pub address_of : Request → ℕ
address_of (read_coils_request a c) = a
address_of (read_discrete_inputs_request a c) = a
address_of (read_holding_registers_request a c) = a
address_of (read_input_registers_request a c) = a
address_of (write_single_coil_request a v) = a
address_of (write_single_register_request a v) = a
address_of (write_multiple_coils_request a vs) = a
address_of (write_multiple_registers_request a vs) = a

abbrev pub quantity_of : Request → ℕ
quantity_of (read_coils_request a c) = c
quantity_of (read_discrete_inputs_request a c) = c
quantity_of (read_holding_registers_request a c) = c
quantity_of (read_input_registers_request a c) = c
quantity_of (write_single_coil_request a v) = 1
quantity_of (write_single_register_request a v) = 1
quantity_of (write_multiple_coils_request a vs) = length vs
quantity_of (write_multiple_registers_request a vs) = length vs

-- The largest quantity of each function.
abbrev pub limit_of : Request → ℕ
limit_of (read_coils_request a c) = 2000
limit_of (read_discrete_inputs_request a c) = 2000
limit_of (read_holding_registers_request a c) = 125
limit_of (read_input_registers_request a c) = 125
limit_of (write_single_coil_request a v) = 1
limit_of (write_single_register_request a v) = 1
limit_of (write_multiple_coils_request a vs) = 1968
limit_of (write_multiple_registers_request a vs) = 123

abbrev pub region_of : Device → Request → MemoryBlock
region_of d (read_coils_request a c) = d.coils
region_of d (read_discrete_inputs_request a c) = d.discrete_inputs
region_of d (read_holding_registers_request a c) = d.holding_registers
region_of d (read_input_registers_request a c) = d.input_registers
region_of d (write_single_coil_request a v) = d.coils
region_of d (write_single_register_request a v) = d.holding_registers
region_of d (write_multiple_coils_request a vs) = d.coils
region_of d (write_multiple_registers_request a vs) = d.holding_registers

-- An illegal quantity wins over an illegal address.
unfoldable pub verdict : Device → Request → Option ModbusError
verdict d r =
    if not (leb 1 (quantity_of r) && leb (quantity_of r) (limit_of r))
    then some illegal_data_value
    else if ltb (region_of d r).size (address_of r + quantity_of r)
    then some illegal_data_address
    else none

-- The slots of a range, and a region with some slots replaced.
abbrev pub slots : MemoryBlock → ℕ → ℕ → List Value
slots b a n = take n (drop a b.values)

abbrev pub replaced : MemoryBlock → ℕ → List Value → MemoryBlock
replaced b a vs = record b { values = spliced b.values a vs }

-- The response and the device after a request that is not refused.
abbrev pub outcome : Device → Request → Response × Device
outcome d (read_coils_request a c) = (read_coils_response (map to_bool (slots d.coils a c)), d)
outcome d (read_discrete_inputs_request a c) =
    (read_discrete_inputs_response (map to_bool (slots d.discrete_inputs a c)), d)
outcome d (read_holding_registers_request a c) =
    (read_holding_registers_response (map to_int (slots d.holding_registers a c)), d)
outcome d (read_input_registers_request a c) =
    (read_input_registers_response (map to_int (slots d.input_registers a c)), d)
outcome d (write_single_coil_request a v) =
    (write_single_coil_response a v, record d { coils = replaced d.coils a (flag v ∷ []) })
outcome d (write_single_register_request a v) = (
  write_single_register_response a v,
  record d { holding_registers = replaced d.holding_registers a (num v ∷ []) },
)
outcome d (write_multiple_coils_request a vs) = (
  write_multiple_coils_response a (length vs),
  record d { coils = replaced d.coils a (map flag vs) },
)
outcome d (write_multiple_registers_request a vs) = (
  write_multiple_registers_response a (length vs),
  record d { holding_registers = replaced d.holding_registers a (map num vs) },
)

abbrev pub ruling : Option ModbusError → Response × Device → Result (Response × Device)
ruling (some refusal) o = err (modbus_error refusal none)
ruling none o = ok o

-- `handle_request` refuses what the verdict refuses, with that exception and no function code, and
-- otherwise comes to the outcome.
pub handle_request-ruling :
    (d : Device) (r : Request) → handle_request d r ≡ ruling (verdict d r) (outcome d r)
unfolding handle_request read write verdict
handle_request-ruling d (read_coils_request a c) = ground arith
handle_request-ruling d (write_multiple_coils_request a vs) = ground (arith, length-map vs flag)
handle_request-ruling d (write_multiple_registers_request a vs) = ground (arith, length-map vs num)
handle_request-ruling d _ = ground arith
