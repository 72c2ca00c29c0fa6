-- ===== src/Dispatcher.antt =====
-- modbus_sim/dispatcher.py: `_require_quantity`, `handle_request` and `process_pdu`. A device is changed in
-- place by a write, which is the last thing that may raise: an exception leaves it as it was.
pub mod Verdict
pub mod Effect
pub mod Separate
pub mod Outcome
pub mod Reply
pub mod Total
use modbus_sim.Prelude.{
  ℕ, Bool, ◌||◌, Option, none, some, List, [], ◌∷◌, map, ltb, if◌then◌else◌, length, Bytes,
}
use modbus_sim.Result.{
  ModbusError, illegal_function, illegal_data_address, illegal_data_value, server_device_failure,
  Result, ok, err, modbus_error, value_error, struct_error, index_error, ◌>>=◌, ◌>>◌,
}
use modbus_sim.Frame.Constants.{
  max_read_bits, max_read_registers, max_write_coils, max_write_registers, illegal_function_code,
  illegal_data_address_code, illegal_data_value_code, server_device_failure_code,
}
use modbus_sim.Frame.Request.{
  Request, read_coils_request, read_discrete_inputs_request, read_holding_registers_request,
  read_input_registers_request, write_single_coil_request, write_single_register_request,
  write_multiple_coils_request, write_multiple_registers_request, decode_request_pdu,
}
use modbus_sim.Frame.Response.{
  Response, read_coils_response, read_discrete_inputs_response, read_holding_registers_response,
  read_input_registers_response, write_single_coil_response, write_single_register_response,
  write_multiple_coils_response, write_multiple_registers_response, exception_response, clear_mask,
  encode_response_pdu,
}
use modbus_sim.Datastore.Value.{Value, num, flag, to_bool, to_int}
use modbus_sim.Datastore.Block.{read, write}
use modbus_sim.Datastore.Device.{Device}

-- `exception_code` of each subclass of `ModbusError`.
abbrev pub exception_code : ModbusError → ℕ
exception_code illegal_function = illegal_function_code
exception_code illegal_data_address = illegal_data_address_code
exception_code illegal_data_value = illegal_data_value_code
exception_code server_device_failure = server_device_failure_code

unfoldable pub require_quantity : ℕ → ℕ → Result (Unit {0})
require_quantity count limit =
    if ltb count 1 || ltb limit count then err (modbus_error illegal_data_value none) else ok tt

-- The response and the device afterwards.
unfoldable pub handle_request : Device → Request → Result (Response × Device)
unfolding require_quantity
handle_request device (read_coils_request addr count) = do
  require_quantity count max_read_bits
  bits ← read device.coils addr count
  ok (read_coils_response (map to_bool bits), device)
handle_request device (read_discrete_inputs_request addr count) = do
  require_quantity count max_read_bits
  bits ← read device.discrete_inputs addr count
  ok (read_discrete_inputs_response (map to_bool bits), device)
handle_request device (read_holding_registers_request addr count) = do
  require_quantity count max_read_registers
  regs ← read device.holding_registers addr count
  ok (read_holding_registers_response (map to_int regs), device)
handle_request device (read_input_registers_request addr count) = do
  require_quantity count max_read_registers
  regs ← read device.input_registers addr count
  ok (read_input_registers_response (map to_int regs), device)
handle_request device (write_single_coil_request addr value) = do
  coils ← write device.coils addr (flag value ∷ [])
  ok (write_single_coil_response addr value, record device { coils = coils })
handle_request device (write_single_register_request addr value) = do
  registers ← write device.holding_registers addr (num value ∷ [])
  ok (write_single_register_response addr value, record device { holding_registers = registers })
handle_request device (write_multiple_coils_request addr values) = do
  require_quantity (length values) max_write_coils
  coils ← write device.coils addr (map flag values)
  ok (write_multiple_coils_response addr (length values), record device { coils = coils })
handle_request device (write_multiple_registers_request addr values) = do
  require_quantity (length values) max_write_registers
  registers ← write device.holding_registers addr (map num values)
  ok (
    write_multiple_registers_response addr (length values),
    record device { holding_registers = registers },
  )

-- `(pdu[0] & ~EXCEPTION_MASK) if pdu else 0`
abbrev pub fallback_fc : Bytes → ℕ
fallback_fc [] = 0
fallback_fc (fc ∷ _) = clear_mask fc

-- `exc.function_code if exc.function_code is not None else fallback_fc`
abbrev code_or : Option ℕ → ℕ → ℕ
code_or none fallback = fallback
code_or (some fc) fallback = fc

-- The two handlers of `process_pdu`, over what the body of the `try` came to.
unfoldable pub settle : Device → ℕ → Result (Response × Device) → Response × Device
settle device fallback (ok outcome) = outcome
settle device fallback (err (modbus_error exc function_code)) =
    (exception_response (code_or function_code fallback) (exception_code exc), device)
settle device fallback (err _) = (exception_response fallback server_device_failure_code, device)

-- The response PDU and the device afterwards. `encode_response_pdu` stands outside the `try`, so
-- what it raises passes on.
unfoldable pub process_pdu : Device → Bytes → Result Bytes × Device
unfolding settle
process_pdu device pdu =
    let (response, device') =
      settle device (fallback_fc pdu)
        (do request ← decode_request_pdu pdu; handle_request device request) in
    (encode_response_pdu response, device')
