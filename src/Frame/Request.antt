-- ===== src/Frame/Request.antt =====
-- The request PDUs of modbus_sim/frame.py: their dataclasses, `decode_request_pdu` with its helpers
-- `_read_request` and `_decode_multi_write`, and `encode_request_pdu`.
pub mod Valid
pub mod RoundTrip
pub mod Parts
pub mod Decoded
pub mod Errors
pub mod Codes
use modbus_sim.Prelude.{
  ℕ, ◌+◌, ◌*◌, ◌/◌, Bool, true, false, ◌||◌, not, none, some, List, [], ◌∷◌, ◌++◌, ltb, ◌==◌,
  if◌then◌else◌, length, take, drop, Bytes,
}
use modbus_sim.Result.{
  Result, ok, err, modbus_error, illegal_function, illegal_data_value, index_error, ◌>>=◌,
}
use modbus_sim.Frame.Constants.{
  read_coils, read_discrete_inputs, read_holding_registers, read_input_registers, write_single_coil,
  write_single_register, write_multiple_coils, write_multiple_registers, coil_on, coil_off,
}
use modbus_sim.Frame.Struct.{pack_bhh, pack_bhhb, unpack_bhh, unpack_bhhb}
use modbus_sim.Frame.Bits.{pack_bits, unpack_bits}
use modbus_sim.Frame.Registers.{pack_registers, unpack_registers}

-- One constructor for each dataclass, its fields in order.
pub data Request : Type 0 where
  read_coils_request : ℕ → ℕ → Request
  read_discrete_inputs_request : ℕ → ℕ → Request
  read_holding_registers_request : ℕ → ℕ → Request
  read_input_registers_request : ℕ → ℕ → Request
  write_single_coil_request : ℕ → Bool → Request
  write_single_register_request : ℕ → ℕ → Request
  write_multiple_coils_request : ℕ → List Bool → Request
  write_multiple_registers_request : ℕ → List ℕ → Request

-- `pdu[0]`
abbrev pub first_byte : Bytes → Result ℕ
first_byte [] = err index_error
first_byte (b ∷ _) = ok b

unfoldable pub read_request : Bytes → Result (ℕ × ℕ × ℕ)
unfolding unpack_bhh
read_request pdu =
    if length pdu == 5
    then unpack_bhh pdu
    else do fc ← first_byte pdu; err (modbus_error illegal_data_value (some fc))

-- The dictionary of `decode_request_pdu`, at the four codes that it is indexed by.
abbrev read_class : ℕ → ℕ → ℕ → Request
read_class fc =
    if fc == read_coils
    then read_coils_request
    else if fc == read_discrete_inputs
    then read_discrete_inputs_request
    else if fc == read_holding_registers
    then read_holding_registers_request
    else read_input_registers_request

-- The value bytes of Write Single Coil.
coil_value : ℕ → Result Bool
coil_value raw =
    if raw == coil_on
    then ok true
    else if raw == coil_off
    then ok false
    else err (modbus_error illegal_data_value (some write_single_coil))

unfoldable pub decode_multi_write : Bytes → ℕ → Result (ℕ × ℕ × Bytes)
unfolding unpack_bhhb
decode_multi_write pdu fc =
    if ltb (length pdu) 6 then err (modbus_error illegal_data_value (some fc)) else do
      (_, addr, qty, byte_count) ← unpack_bhhb (take 6 pdu)
      let payload = drop 6 pdu
      let expected = if fc == write_multiple_registers then 2 * qty else (qty + 7) / 8
      if not (length payload == byte_count)
          then err (modbus_error illegal_data_value (some fc))
          else if not (byte_count == expected)
          then err (modbus_error illegal_data_value (some fc))
          else ok (addr, qty, payload)

-- The tests of `decode_request_pdu` on the function code `fc`, the first byte of `pdu`.
decode_by_code : ℕ → Bytes → Result Request
unfolding read_request coil_value decode_multi_write
decode_by_code fc pdu =
    if fc == read_coils
      || (fc == read_discrete_inputs
          || (fc == read_holding_registers || fc == read_input_registers))
    then (do (_, addr, qty) ← read_request pdu; ok (read_class fc addr qty))
    else if fc == write_single_coil
    then (do
      (_, addr, raw) ← read_request pdu
      value ← coil_value raw
      ok (write_single_coil_request addr value))
    else if fc == write_single_register
    then (do (_, addr, value) ← read_request pdu; ok (write_single_register_request addr value))
    else if fc == write_multiple_coils
    then (do
      (addr, qty, values) ← decode_multi_write pdu write_multiple_coils
      bits ← unpack_bits values qty
      ok (write_multiple_coils_request addr bits))
    else if fc == write_multiple_registers
    then (do
      (addr, qty, values) ← decode_multi_write pdu write_multiple_registers
      registers ← unpack_registers values
      ok (write_multiple_registers_request addr registers))
    else err (modbus_error illegal_function (some fc))

unfoldable pub decode_request_pdu : Bytes → Result Request
unfolding decode_by_code
decode_request_pdu [] = err (modbus_error illegal_data_value none)
decode_request_pdu (fc ∷ rest) = decode_by_code fc (fc ∷ rest)

unfoldable pub encode_request_pdu : Request → Result Bytes
unfolding pack_bhh pack_bhhb
encode_request_pdu (read_coils_request a c) = pack_bhh read_coils a c
encode_request_pdu (read_discrete_inputs_request a c) = pack_bhh read_discrete_inputs a c
encode_request_pdu (read_holding_registers_request a c) = pack_bhh read_holding_registers a c
encode_request_pdu (read_input_registers_request a c) = pack_bhh read_input_registers a c
encode_request_pdu (write_single_coil_request a v) =
    pack_bhh write_single_coil a (if v then coil_on else coil_off)
encode_request_pdu (write_single_register_request a v) = pack_bhh write_single_register a v
encode_request_pdu (write_multiple_coils_request a vals) = do
  let body = pack_bits vals
  head ← pack_bhhb write_multiple_coils a (length vals) (length body)
  ok (head ++ body)
encode_request_pdu (write_multiple_registers_request a vals) = do
  body ← pack_registers vals
  head ← pack_bhhb write_multiple_registers a (length vals) (length body)
  ok (head ++ body)
