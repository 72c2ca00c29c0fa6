-- ===== src/Frame/Response/Valid.antt =====
-- The responses that fit the wire format, and their bytes.
use modbus_sim.Prelude.{
  ℕ, ◌≤◌, ◌≡◌, arith, if◌then◌else◌, [], ◌∷◌, length, IsByte, IsWord, Bytes, IsBytes, IsWords,
}
use modbus_sim.Result.{ok}
use modbus_sim.Frame.Bits.{pack_bits}
use modbus_sim.Frame.Bits.Pack.{length-pack_bits, pack_bits-IsBytes}
use modbus_sim.Frame.Registers.RoundTrip.{
  word_bytes, length-word_bytes, word_bytes-IsBytes, pack_registers_lem,
}
use modbus_sim.Frame.Request.Valid.{word_pair}
use modbus_sim.Frame.Response.{
  Response, read_coils_response, read_discrete_inputs_response, read_holding_registers_response,
  read_input_registers_response, write_single_coil_response, write_single_register_response,
  write_multiple_coils_response, write_multiple_registers_response, exception_response, set_mask,
  encode_response_pdu,
}
use modbus_sim.Frame.Response.Mask.{set_mask_lem}

-- Every field fits, and the byte count of a read fits one byte.
abbrev pub IsEncodable : Response → Type 0
IsEncodable (read_coils_response b) = length b ≤ 2040
IsEncodable (read_discrete_inputs_response b) = length b ≤ 2040
IsEncodable (read_holding_registers_response r) = (length r ≤ 127) × IsWords r
IsEncodable (read_input_registers_response r) = (length r ≤ 127) × IsWords r
IsEncodable (write_single_coil_response a v) = IsWord a
IsEncodable (write_single_register_response a v) = IsWord a × IsWord v
IsEncodable (write_multiple_coils_response a q) = IsWord a × IsWord q
IsEncodable (write_multiple_registers_response a q) = IsWord a × IsWord q
IsEncodable (exception_response fc ec) = IsByte fc × IsByte ec

-- A read's code, the byte count of its body, and the body.
abbrev pub read_bytes : ℕ → Bytes → Bytes
read_bytes fc body = fc ∷ length body ∷ body

abbrev pub response_bytes : Response → Bytes
response_bytes (read_coils_response b) = read_bytes 1 (pack_bits b)
response_bytes (read_discrete_inputs_response b) = read_bytes 2 (pack_bits b)
response_bytes (read_holding_registers_response r) = read_bytes 3 (word_bytes r)
response_bytes (read_input_registers_response r) = read_bytes 4 (word_bytes r)
response_bytes (write_single_coil_response a v) = word_pair 5 a (if v then 0xff00 else 0)
response_bytes (write_single_register_response a v) = word_pair 6 a v
response_bytes (write_multiple_coils_response a q) = word_pair 15 a q
response_bytes (write_multiple_registers_response a q) = word_pair 16 a q
response_bytes (exception_response fc ec) = set_mask fc ∷ ec ∷ []

-- A response that fits is encoded, to these bytes.
pub encode_response_pdu_lem :
    (r : Response) → IsEncodable r → encode_response_pdu r ≡ ok (response_bytes r)
unfolding encode_response_pdu
encode_response_pdu_lem (read_coils_response b) h = ground (arith, length-pack_bits b)
encode_response_pdu_lem (read_discrete_inputs_response b) h = ground (arith, length-pack_bits b)
encode_response_pdu_lem (read_holding_registers_response r) h =
    ground (arith, pack_registers_lem r h.1, length-word_bytes r)
encode_response_pdu_lem (read_input_registers_response r) h =
    ground (arith, pack_registers_lem r h.1, length-word_bytes r)
encode_response_pdu_lem (exception_response fc ec) h = ground (arith, set_mask_lem fc (omega arith))
encode_response_pdu_lem _ h = ground arith

pub response_bytes-IsBytes : (r : Response) → IsEncodable r → IsBytes (response_bytes r)
response_bytes-IsBytes (read_coils_response b) h =
    ground (arith, length-pack_bits b, pack_bits-IsBytes b)
response_bytes-IsBytes (read_discrete_inputs_response b) h =
    ground (arith, length-pack_bits b, pack_bits-IsBytes b)
response_bytes-IsBytes (read_holding_registers_response r) h =
    ground (arith, length-word_bytes r, word_bytes-IsBytes r h.1)
response_bytes-IsBytes (read_input_registers_response r) h =
    ground (arith, length-word_bytes r, word_bytes-IsBytes r h.1)
response_bytes-IsBytes (write_single_coil_response a v) h = ground arith
response_bytes-IsBytes (exception_response fc ec) h = ground (arith, set_mask_lem fc h.0)
response_bytes-IsBytes _ h = omega arith
