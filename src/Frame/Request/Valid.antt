-- ===== src/Frame/Request/Valid.antt =====
-- The requests that fit the wire format: those that are encoded, and those that are decoded.
use modbus_sim.Prelude.{
  ℕ, ◌≤◌, ◌≡◌, ap, arith, if◌then◌else◌, [], ◌∷◌, ◌++◌, length, IsWord, Bytes, IsBytes, IsWords,
  hi8, lo8,
}
use modbus_sim.Result.{ok, bind-eq-ok}
use modbus_sim.Frame.Bits.{pack_bits}
use modbus_sim.Frame.Bits.Pack.{length-pack_bits, pack_bits-IsBytes}
use modbus_sim.Frame.Registers.{pack_registers}
use modbus_sim.Frame.Registers.RoundTrip.{
  word_bytes, length-word_bytes, word_bytes-IsBytes, pack_registers_lem, pack_registers-eq-ok,
}
use modbus_sim.Frame.Request.{
  Request, read_coils_request, read_discrete_inputs_request, read_holding_registers_request,
  read_input_registers_request, write_single_coil_request, write_single_register_request,
  write_multiple_coils_request, write_multiple_registers_request, encode_request_pdu,
}

-- Every field fits, and the byte count of a multiple write fits one byte.
abbrev pub IsEncodable : Request → Type 0
IsEncodable (read_coils_request a c) = IsWord a × IsWord c
IsEncodable (read_discrete_inputs_request a c) = IsWord a × IsWord c
IsEncodable (read_holding_registers_request a c) = IsWord a × IsWord c
IsEncodable (read_input_registers_request a c) = IsWord a × IsWord c
IsEncodable (write_single_coil_request a v) = IsWord a
IsEncodable (write_single_register_request a v) = IsWord a × IsWord v
IsEncodable (write_multiple_coils_request a vals) = IsWord a × (length vals ≤ 2040)
IsEncodable (write_multiple_registers_request a vals) =
    IsWord a × ((length vals ≤ 127) × IsWords vals)

-- The bytes of an encodable request.
abbrev pub word_pair : ℕ → ℕ → ℕ → Bytes
word_pair fc a b = fc ∷ hi8 a ∷ lo8 a ∷ hi8 b ∷ lo8 b ∷ []

abbrev pub request_bytes : Request → Bytes
request_bytes (read_coils_request a c) = word_pair 1 a c
request_bytes (read_discrete_inputs_request a c) = word_pair 2 a c
request_bytes (read_holding_registers_request a c) = word_pair 3 a c
request_bytes (read_input_registers_request a c) = word_pair 4 a c
request_bytes (write_single_coil_request a v) = word_pair 5 a (if v then 0xff00 else 0)
request_bytes (write_single_register_request a v) = word_pair 6 a v
request_bytes (write_multiple_coils_request a vals) =
    word_pair 15 a (length vals) ++ (length (pack_bits vals) ∷ pack_bits vals)
request_bytes (write_multiple_registers_request a vals) =
    word_pair 16 a (length vals) ++ (length (word_bytes vals) ∷ word_bytes vals)

pub encode_request_pdu_lem :
    (r : Request) → IsEncodable r → encode_request_pdu r ≡ ok (request_bytes r)
unfolding encode_request_pdu
encode_request_pdu_lem (write_multiple_coils_request a vals) h =
    ground (arith, length-pack_bits vals)
encode_request_pdu_lem (write_multiple_registers_request a vals) h =
    ground (arith, pack_registers_lem vals h.1.1, length-word_bytes vals)
encode_request_pdu_lem (write_single_coil_request a v) h = ground arith
encode_request_pdu_lem _ h = ground arith

-- What was encoded was encodable, and was encoded to these bytes.
pub encode_request_pdu-eq-ok :
    (r : Request) {pdu : Bytes}
    → encode_request_pdu r ≡ ok pdu
    → IsEncodable r × (pdu ≡ request_bytes r)
unfolding encode_request_pdu
encode_request_pdu-eq-ok (write_multiple_coils_request a vals) h =
    ground (arith, length-pack_bits vals)
encode_request_pdu-eq-ok (write_multiple_registers_request a vals) h =
    let (body, packed, rest) = bind-eq-ok (pack_registers vals) _ h in
    let (words, same) = pack_registers-eq-ok vals packed in
    ground (arith, length-word_bytes vals, ap length same)
encode_request_pdu-eq-ok (write_single_coil_request a v) h = ground arith
encode_request_pdu-eq-ok _ h = ground arith

pub request_bytes-IsBytes : (r : Request) → IsEncodable r → IsBytes (request_bytes r)
request_bytes-IsBytes (write_multiple_coils_request a vals) h =
    ground (arith, length-pack_bits vals, pack_bits-IsBytes vals)
request_bytes-IsBytes (write_multiple_registers_request a vals) h =
    ground (arith, length-word_bytes vals, word_bytes-IsBytes vals h.1.1)
request_bytes-IsBytes (write_single_coil_request a v) h = ground arith
request_bytes-IsBytes _ h = omega arith

-- The PDU of an encodable request is at most 261 bytes.
pub length-request_bytes : (r : Request) → IsEncodable r → length (request_bytes r) ≤ 261
length-request_bytes (write_multiple_coils_request a vals) h = omega (arith, length-pack_bits vals)
length-request_bytes (write_multiple_registers_request a vals) h =
    omega (arith, length-word_bytes vals)
length-request_bytes (read_coils_request a c) h = omega arith
length-request_bytes _ h = omega arith
