-- ===== src/Frame/Response/RoundTrip.antt =====
-- `encode_response_pdu`, then `decode_response_pdu`.
use modbus_sim.Prelude.{
  ℕ, ◌+◌, ◌-◌, ◌%◌, ◌<◌, ◌≡◌, arith, ltb, Bool-cases, inl, inr, Option, some, [], ◌∷◌, length, hi8,
  lo8, be16,
}
use modbus_sim.Result.{ok, ◌>>=◌}
use modbus_sim.Frame.Bits.RoundTrip.{unpack_bits-pack_bits}
use modbus_sim.Frame.Registers.RoundTrip.{unpack_registers-word_bytes}
use modbus_sim.Frame.Response.{
  Response, read_coils_response, read_discrete_inputs_response, read_holding_registers_response,
  read_input_registers_response, write_single_coil_response, write_single_register_response,
  write_multiple_coils_response, write_multiple_registers_response, exception_response, set_mask,
  is_exception, encode_response_pdu, decode_response_pdu,
}
use modbus_sim.Frame.Response.Mask.{clear_mask_lem, set_mask_lem, is_exception_lem}
use modbus_sim.Frame.Response.Valid.{IsEncodable, response_bytes, encode_response_pdu_lem}

-- What the decoder can tell of a response: the bits of a read with the count that was asked for, and the
-- function code of an exception if it has no high bit.
abbrev pub IsRecoverable : Response → Option ℕ → Type 0
IsRecoverable (read_coils_response b) bit_count = bit_count ≡ some (length b)
IsRecoverable (read_discrete_inputs_response b) bit_count = bit_count ≡ some (length b)
IsRecoverable (exception_response fc ec) bit_count = fc < 128
IsRecoverable _ bit_count = Unit

be16-hi8-lo8 : (x : ℕ) → be16 (hi8 x) (lo8 x) ≡ x
be16-hi8-lo8 x = omega arith

decode_exception :
    (fc ec : ℕ) (bit_count : Option ℕ)
    → fc < 128
    → decode_response_pdu (set_mask fc ∷ ec ∷ []) bit_count ≡ ok (exception_response fc ec)
unfolding decode_response_pdu
decode_exception fc ec bit_count h =
    let masked : set_mask fc ≡ fc + 128 = ground (arith, set_mask_lem fc (omega arith)) in
    rw masked (
      ground
        (arith, clear_mask_lem (fc + 128) (omega arith), is_exception_lem (fc + 128) (omega arith)))

pub decode-response_bytes :
    (r : Response) (bit_count : Option ℕ)
    → IsEncodable r
    → IsRecoverable r bit_count
    → decode_response_pdu (response_bytes r) bit_count ≡ ok r
unfolding decode_response_pdu is_exception
decode-response_bytes (read_coils_response b) bit_count h w =
    rw w (ground (arith, unpack_bits-pack_bits b))
decode-response_bytes (read_discrete_inputs_response b) bit_count h w =
    rw w (ground (arith, unpack_bits-pack_bits b))
decode-response_bytes (read_holding_registers_response r) bit_count h w =
    ground (arith, unpack_registers-word_bytes r h.1)
decode-response_bytes (read_input_registers_response r) bit_count h w =
    ground (arith, unpack_registers-word_bytes r h.1)
decode-response_bytes (write_single_coil_response a v) bit_count h w =
    ground (arith, be16-hi8-lo8 a)
decode-response_bytes (write_single_register_response a q) bit_count h w =
    rw (be16-hi8-lo8 a, be16-hi8-lo8 q)
decode-response_bytes (write_multiple_coils_response a q) bit_count h w =
    rw (be16-hi8-lo8 a, be16-hi8-lo8 q)
decode-response_bytes (write_multiple_registers_response a q) bit_count h w =
    rw (be16-hi8-lo8 a, be16-hi8-lo8 q)
decode-response_bytes (exception_response fc ec) bit_count h w = decode_exception fc ec bit_count w

-- The bits of a read are counted.
abbrev pub IsCounted : Response → Option ℕ → Type 0
IsCounted (read_coils_response b) bit_count = bit_count ≡ some (length b)
IsCounted (read_discrete_inputs_response b) bit_count = bit_count ≡ some (length b)
IsCounted _ bit_count = Unit

-- The response with the high bit of an exception's function code cleared.
abbrev pub recovered : Response → Response
recovered (exception_response fc ec) = exception_response (fc % 128) ec
recovered r = r

recovered-exception :
    (fc ec : ℕ) (bit_count : Option ℕ)
    → fc < 256
    → decode_response_pdu (set_mask fc ∷ ec ∷ []) bit_count ≡ ok (exception_response (fc % 128) ec)
recovered-exception fc ec bit_count h = elim (Bool-cases (ltb fc 128)) [
  | inl low ↦
      let small : fc % 128 ≡ fc = ground arith in
      rw small (decode_exception fc ec bit_count (ground arith))
  | inr high ↦
      let below : fc - 128 < 128 = ground arith in
      let same : fc % 128 ≡ fc - 128 = ground arith in
      let masked : set_mask fc ≡ set_mask (fc - 128) =
        ground (arith, set_mask_lem fc h, set_mask_lem (fc - 128) (omega (arith, below))) in
      rw (masked, same) (decode_exception (fc - 128) ec bit_count below)
]

decode-response_bytes-IsCounted :
    (r : Response) (bit_count : Option ℕ)
    → IsEncodable r
    → IsCounted r bit_count
    → decode_response_pdu (response_bytes r) bit_count ≡ ok (recovered r)
decode-response_bytes-IsCounted (exception_response fc ec) bit_count h w =
    recovered-exception fc ec bit_count h.0
decode-response_bytes-IsCounted (read_coils_response b) bit_count h w =
    decode-response_bytes (read_coils_response b) bit_count h w
decode-response_bytes-IsCounted (read_discrete_inputs_response b) bit_count h w =
    decode-response_bytes (read_discrete_inputs_response b) bit_count h w
decode-response_bytes-IsCounted r bit_count h w = decode-response_bytes r bit_count h tt

-- A response that fits is encoded, and decoded again, with its bit count given for a read of bits, to itself, save for
-- an exception response, whose function code comes back without its high bit.
pub decode_response_pdu-encode_response_pdu :
    (r : Response) (bit_count : Option ℕ)
    → IsEncodable r
    → IsCounted r bit_count
    → (encode_response_pdu r >>= λ pdu. decode_response_pdu pdu bit_count) ≡ ok (recovered r)
decode_response_pdu-encode_response_pdu r bit_count h w =
    rw (encode_response_pdu_lem r h) (decode-response_bytes-IsCounted r bit_count h w)
