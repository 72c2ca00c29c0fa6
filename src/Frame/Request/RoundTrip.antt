-- ===== src/Frame/Request/RoundTrip.antt =====
-- `encode_request_pdu`, then `decode_request_pdu`.
use modbus_sim.Prelude.{ℕ, ◌≡◌, arith, length, Bytes, be16, hi8, lo8}
use modbus_sim.Result.{ok}
use modbus_sim.Frame.Bits.Pack.{length-pack_bits}
use modbus_sim.Frame.Bits.RoundTrip.{unpack_bits-pack_bits}
use modbus_sim.Frame.Registers.RoundTrip.{length-word_bytes, unpack_registers-word_bytes}
use modbus_sim.Frame.Request.{
  Request, read_coils_request, read_discrete_inputs_request, read_holding_registers_request,
  read_input_registers_request, write_single_coil_request, write_single_register_request,
  write_multiple_coils_request, write_multiple_registers_request, decode_request_pdu,
  encode_request_pdu,
}
use modbus_sim.Frame.Request.Valid.{IsEncodable, request_bytes, encode_request_pdu-eq-ok}

be16-hi8-lo8 : (x : ℕ) → be16 (hi8 x) (lo8 x) ≡ x
be16-hi8-lo8 x = omega arith

pub decode-request_bytes :
    (r : Request) → IsEncodable r → decode_request_pdu (request_bytes r) ≡ ok r
unfolding decode_request_pdu
decode-request_bytes (write_single_coil_request a v) h = ground (arith, be16-hi8-lo8 a)
decode-request_bytes (write_multiple_coils_request a vals) h = ground (
  arith,
  be16-hi8-lo8 a,
  be16-hi8-lo8 (length vals),
  length-pack_bits vals,
  unpack_bits-pack_bits vals,
)
decode-request_bytes (write_multiple_registers_request a vals) h = ground (
  arith,
  be16-hi8-lo8 a,
  be16-hi8-lo8 (length vals),
  length-word_bytes vals,
  unpack_registers-word_bytes vals h.1.1,
)
decode-request_bytes (write_single_register_request a c) h = rw (be16-hi8-lo8 a, be16-hi8-lo8 c)
decode-request_bytes (read_coils_request a c) h = rw (be16-hi8-lo8 a, be16-hi8-lo8 c)
decode-request_bytes (read_discrete_inputs_request a c) h = rw (be16-hi8-lo8 a, be16-hi8-lo8 c)
decode-request_bytes (read_holding_registers_request a c) h = rw (be16-hi8-lo8 a, be16-hi8-lo8 c)
decode-request_bytes (read_input_registers_request a c) h = rw (be16-hi8-lo8 a, be16-hi8-lo8 c)

-- Whatever `encode_request_pdu` returns, `decode_request_pdu` takes back to the same request.
pub decode_request_pdu-encode_request_pdu :
    (r : Request) {pdu : Bytes} → encode_request_pdu r ≡ ok pdu → decode_request_pdu pdu ≡ ok r
decode_request_pdu-encode_request_pdu r e =
    let (fits, same) = encode_request_pdu-eq-ok r e in rw same (decode-request_bytes r fits)
