-- ===== src/Tests/Codec.antt =====
-- The codec: the examples of the Modbus specification, and the theorems at them.
use modbus_sim.Prelude.{
  ℕ, Bool, true, false, List, [], ◌∷◌, ◌≡◌, refl, none, some, Bytes, arith, ◌≤◌, ◌∙◌,
}
use modbus_sim.Result.{ok, err, modbus_error, illegal_data_value, index_error, struct_error, ◌>>=◌}
use modbus_sim.Frame.Bits.{pack_bits, unpack_bits, bit_at}
use modbus_sim.Frame.Bits.Pack.{bit_at-pack_bits, wanted_above}
use modbus_sim.Frame.Registers.{pack_registers, unpack_registers}
use modbus_sim.Frame.Mbap.{MbapHeader, decode_mbap, encode_mbap, build_adu}
use modbus_sim.Frame.Request.{
  Request, read_coils_request, write_multiple_coils_request, write_multiple_registers_request,
  decode_request_pdu, encode_request_pdu,
}
use modbus_sim.Frame.Request.RoundTrip.{decode_request_pdu-encode_request_pdu}
use modbus_sim.Frame.Request.Decoded.{encode_request_pdu-decode_request_pdu}
use modbus_sim.Frame.Request.Errors.{Refusal, decode_request_pdu-eq-err}
use modbus_sim.Frame.Response.{
  exception_response, decode_response_pdu, is_exception, encode_response_pdu,
}
use modbus_sim.Frame.Response.RoundTrip.{decode_response_pdu-encode_response_pdu}
use modbus_sim.Frame.Response.Errors.{IsDecoded, decode_response_pdu-IsDecoded}

abbrev ten_bits : List Bool
ten_bits = true ∷ false ∷ true ∷ true ∷ false ∷ false ∷ true ∷ true ∷ true ∷ false ∷ []

pack_ten : pack_bits ten_bits ≡ 0xCD ∷ 0x01 ∷ []
unfolding pack_bits
pack_ten = refl

unpack_ten : unpack_bits (0xCD ∷ 0x01 ∷ []) 10 ≡ ok ten_bits
unfolding unpack_bits
unpack_ten = refl

abbrev write_coils_pdu : Bytes
write_coils_pdu = 0x0F ∷ 0x00 ∷ 0x13 ∷ 0x00 ∷ 0x0A ∷ 0x02 ∷ 0xCD ∷ 0x01 ∷ []

abbrev write_coils : Request
write_coils = write_multiple_coils_request 0x13 ten_bits

encode_write_coils : encode_request_pdu write_coils ≡ ok write_coils_pdu
unfolding encode_request_pdu pack_bits
encode_write_coils = refl

decode_write_coils : decode_request_pdu write_coils_pdu ≡ ok write_coils
unfolding decode_request_pdu unpack_bits
decode_write_coils = refl

decode_registers :
    decode_request_pdu (0x10 ∷ 0 ∷ 1 ∷ 0 ∷ 2 ∷ 4 ∷ 0 ∷ 10 ∷ 1 ∷ 2 ∷ [])
    ≡ ok (write_multiple_registers_request 1 (10 ∷ 258 ∷ []))
unfolding decode_request_pdu unpack_registers
decode_registers = refl

bad_coil :
    decode_request_pdu (5 ∷ 0 ∷ 1 ∷ 0x12 ∷ 0 ∷ []) ≡ err (modbus_error illegal_data_value (some 5))
unfolding decode_request_pdu
bad_coil = refl

overflow : encode_request_pdu (read_coils_request 65536 1) ≡ err struct_error
unfolding encode_request_pdu
overflow = refl

pack_registers_two : pack_registers (258 ∷ 65535 ∷ []) ≡ ok (1 ∷ 2 ∷ 255 ∷ 255 ∷ [])
unfolding pack_registers
pack_registers_two = refl

abbrev header : MbapHeader
header = record { transaction_id = 0x1234; protocol_id = 0; length = 6; unit_id = 17 }

encode_header : encode_mbap header ≡ ok (0x12 ∷ 0x34 ∷ 0 ∷ 0 ∷ 0 ∷ 6 ∷ 17 ∷ [])
unfolding encode_mbap
encode_header = refl

decode_header : decode_mbap (0x12 ∷ 0x34 ∷ 0 ∷ 0 ∷ 0 ∷ 6 ∷ 17 ∷ 3 ∷ []) ≡ ok header
unfolding decode_mbap
decode_header = refl

build_small : build_adu 1 17 (3 ∷ 0 ∷ []) ≡ ok (0 ∷ 1 ∷ 0 ∷ 0 ∷ 0 ∷ 3 ∷ 17 ∷ 3 ∷ 0 ∷ [])
unfolding build_adu
build_small = refl

decode_request_pdu-encode_request_pdu_example : decode_request_pdu write_coils_pdu ≡ ok write_coils
decode_request_pdu-encode_request_pdu_example =
    decode_request_pdu-encode_request_pdu write_coils encode_write_coils

-- The bits past the tenth are clear.
clear_padding : (j : ℕ) → 10 ≤ j → bit_at (0xCD ∷ 0x01 ∷ []) j ≡ false
clear_padding j h =
    rw pack_ten at (bit_at-pack_bits ten_bits j ∙ wanted_above 0 ten_bits j (omega arith))

encode_request_pdu-decode_request_pdu_example : encode_request_pdu write_coils ≡ ok write_coils_pdu
encode_request_pdu-decode_request_pdu_example =
    encode_request_pdu-decode_request_pdu write_coils_pdu (omega arith) decode_write_coils
      clear_padding

decode_request_pdu-eq-err_example :
    Refusal (5 ∷ 0 ∷ 1 ∷ 0x12 ∷ 0 ∷ []) (modbus_error illegal_data_value (some 5))
decode_request_pdu-eq-err_example =
    decode_request_pdu-eq-err (5 ∷ 0 ∷ 1 ∷ 0x12 ∷ 0 ∷ []) (omega arith) bad_coil

decode_response_pdu-encode_response_pdu_example :
    (encode_response_pdu (exception_response 0x83 1) >>= λ pdu. decode_response_pdu pdu none)
    ≡ ok (exception_response 3 1)
decode_response_pdu-encode_response_pdu_example =
    decode_response_pdu-encode_response_pdu (exception_response 0x83 1) none (omega arith) tt

truncated_read : decode_response_pdu (3 ∷ []) none ≡ err index_error
unfolding decode_response_pdu is_exception
truncated_read = refl

decode_response_pdu-IsDecoded_example : IsDecoded (3 ∷ []) (decode_response_pdu (3 ∷ []) none)
decode_response_pdu-IsDecoded_example = decode_response_pdu-IsDecoded (3 ∷ []) none
