-- ===== src/Frame/Response.antt =====
-- The response PDUs of modbus_sim/frame.py: their dataclasses, `encode_response_pdu` and
-- `decode_response_pdu`. `fc & ~EXCEPTION_MASK` is `fc` less the bit of the mask.
pub mod Mask
pub mod Valid
pub mod RoundTrip
pub mod Errors
use Prim.Native.Nat.{◌-◌}
use modbus_sim.Prelude.{
  ℕ, ◌+◌, ◌*◌, bit_and, bit_or, Bool, ◌||◌, not, Option, none, some, List, [], ◌∷◌, ◌++◌, ◌==◌,
  if◌then◌else◌, length, drop, Bytes,
}
use modbus_sim.Result.{
  Result, ok, err, modbus_error, illegal_function, illegal_data_value, index_error, ◌>>=◌,
}
use modbus_sim.Frame.Constants.{
  read_coils, read_discrete_inputs, read_holding_registers, read_input_registers, write_single_coil,
  write_single_register, write_multiple_coils, write_multiple_registers, coil_on, coil_off,
  exception_mask,
}
use modbus_sim.Frame.Struct.{pack_bb, pack_bhh, unpack_bhh}
use modbus_sim.Frame.Bits.{pack_bits, unpack_bits}
use modbus_sim.Frame.Registers.{pack_registers, unpack_registers}
use modbus_sim.Frame.Request.{read_request}

-- One constructor for each dataclass, its fields in order.
pub data Response : Type 0 where
  read_coils_response : List Bool → Response
  read_discrete_inputs_response : List Bool → Response
  read_holding_registers_response : List ℕ → Response
  read_input_registers_response : List ℕ → Response
  write_single_coil_response : ℕ → Bool → Response
  write_single_register_response : ℕ → ℕ → Response
  write_multiple_coils_response : ℕ → ℕ → Response
  write_multiple_registers_response : ℕ → ℕ → Response
  exception_response : ℕ → ℕ → Response

-- `fc & EXCEPTION_MASK`, as a truth value
unfoldable pub is_exception : ℕ → Bool
is_exception fc = not (bit_and fc exception_mask == 0)

-- `fc & ~EXCEPTION_MASK`
unfoldable pub clear_mask : ℕ → ℕ
clear_mask fc = fc - bit_and fc exception_mask

-- `fc | EXCEPTION_MASK`
unfoldable pub set_mask : ℕ → ℕ
set_mask fc = bit_or fc exception_mask

-- A read's code, the byte count of its body, and the body.
encode_read : ℕ → Bytes → Result Bytes
unfolding pack_bb
encode_read fc body = do head ← pack_bb fc (length body); ok (head ++ body)

unfoldable pub encode_response_pdu : Response → Result Bytes
unfolding encode_read pack_bb pack_bhh
encode_response_pdu (read_coils_response b) = do let body = pack_bits b; encode_read read_coils body
encode_response_pdu (read_discrete_inputs_response b) = do
  let body = pack_bits b
  encode_read read_discrete_inputs body
encode_response_pdu (read_holding_registers_response r) = do
  body ← pack_registers r
  encode_read read_holding_registers body
encode_response_pdu (read_input_registers_response r) = do
  body ← pack_registers r
  encode_read read_input_registers body
encode_response_pdu (write_single_coil_response a v) =
    pack_bhh write_single_coil a (if v then coil_on else coil_off)
encode_response_pdu (write_single_register_response a v) = pack_bhh write_single_register a v
encode_response_pdu (write_multiple_coils_response a q) = pack_bhh write_multiple_coils a q
encode_response_pdu (write_multiple_registers_response a q) = pack_bhh write_multiple_registers a q
encode_response_pdu (exception_response fc ec) = pack_bb (set_mask fc) ec

-- `pdu[1]`
abbrev pub second_byte : Bytes → Result ℕ
second_byte (_ ∷ b ∷ _) = ok b
second_byte _ = err index_error

-- The byte count of a read response, checked against its length.
checked_count : Bytes → Result ℕ
checked_count pdu = do
  byte_count ← second_byte pdu
  if not (length pdu == 2 + byte_count)
      then err (modbus_error illegal_data_value none)
      else ok byte_count

-- `bit_count if bit_count is not None else byte_count * 8`
abbrev count_or : Option ℕ → ℕ → ℕ
count_or none byte_count = byte_count * 8
count_or (some bit_count) byte_count = bit_count

decode_by_code : ℕ → Bytes → Option ℕ → Result Response
unfolding checked_count read_request unpack_bhh
decode_by_code fc pdu bit_count =
    if is_exception fc
    then (do
      if not (length pdu == 2)
          then err (modbus_error illegal_data_value none)
          else do ec ← second_byte pdu; ok (exception_response (clear_mask fc) ec))
    else if fc == read_coils || fc == read_discrete_inputs
    then (do
      byte_count ← checked_count pdu
      bits ← unpack_bits (drop 2 pdu) (count_or bit_count byte_count)
      ok (
          if fc == read_coils
          then read_coils_response bits
          else read_discrete_inputs_response bits))
    else if fc == read_holding_registers || fc == read_input_registers
    then (do
      _ ← checked_count pdu
      regs ← unpack_registers (drop 2 pdu)
      ok (
          if fc == read_holding_registers
          then read_holding_registers_response regs
          else read_input_registers_response regs))
    else if fc == write_single_coil || fc == write_single_register
    then (do
      (_, addr, raw) ← read_request pdu
      ok (
          if fc == write_single_coil
          then write_single_coil_response addr (raw == coil_on)
          else write_single_register_response addr raw))
    else if fc == write_multiple_coils || fc == write_multiple_registers
    then if not (length pdu == 5) then err (modbus_error illegal_data_value none) else (do
      (_, addr, qty) ← unpack_bhh pdu
      ok (
          if fc == write_multiple_coils
          then write_multiple_coils_response addr qty
          else write_multiple_registers_response addr qty))
    else err (modbus_error illegal_function (some fc))

unfoldable pub decode_response_pdu : Bytes → Option ℕ → Result Response
unfolding decode_by_code
decode_response_pdu [] bit_count = err (modbus_error illegal_data_value none)
decode_response_pdu (fc ∷ rest) bit_count = decode_by_code fc (fc ∷ rest) bit_count
