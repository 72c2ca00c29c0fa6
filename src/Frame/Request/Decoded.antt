-- ===== src/Frame/Request/Decoded.antt =====
-- The requests that `decode_request_pdu` returns, and the bytes that they come from.
use modbus_sim.Prelude.{
  ℕ, ◌≤◌, ◌≡◌, refl, sym, subst, ap, ◌∙◌, Bool, false, arith, if◌then◌else◌, List, [], ◌∷◌, length,
  drop, IsWord, Bytes, IsBytes,
}
use modbus_sim.Result.{Result, ok, ◌>>=◌, bind-eq-ok, ok_injective}
use modbus_sim.Frame.Bits.{bit_at, unpack_bits}
use modbus_sim.Frame.Bits.RoundTrip.{length-unpack_bits, pack_bits-unpack_bits}
use modbus_sim.Frame.Registers.{unpack_registers}
use modbus_sim.Frame.Registers.RoundTrip.{length-word_bytes, pack_registers-unpack_registers}
use modbus_sim.Frame.Request.{
  Request, read_coils_request, read_discrete_inputs_request, read_holding_registers_request,
  read_input_registers_request, write_single_coil_request, write_single_register_request,
  write_multiple_coils_request, write_multiple_registers_request, decode_by_code,
  decode_request_pdu, encode_request_pdu, read_request, coil_value, decode_multi_write,
}
use modbus_sim.Frame.Request.Codes.{
  CodeView, is_read_coils, is_read_discrete_inputs, is_read_holding_registers,
  is_read_input_registers, is_write_single_coil, is_write_single_register, is_write_multiple_coils,
  is_write_multiple_registers, is_unsupported, code_view,
}
use modbus_sim.Frame.Request.Parts.{
  ReadParts, read_request-eq-ok, MultiParts, decode_multi_write-eq-ok,
}
use modbus_sim.Frame.Request.Valid.{IsEncodable, request_bytes, encode_request_pdu_lem, word_pair}

-- The bits of a Write Multiple Coils payload past the quantity are clear.
abbrev pub HasClearPadding : Request → Bytes → Type 0
HasClearPadding (write_multiple_coils_request a vals) pdu =
    (j : ℕ) → length vals ≤ j → bit_at (drop 6 pdu) j ≡ false
HasClearPadding _ pdu = Unit

-- What a decoded request says of its PDU.
record Explains (r : Request) (pdu : Bytes) : Type 0 where
  encodable : IsEncodable r
  canonical : HasClearPadding r pdu → request_bytes r ≡ pdu

coil_value-eq-ok : (raw : ℕ) (v : Bool) → coil_value raw ≡ ok v → raw ≡ (if v then 0xff00 else 0)
unfolding coil_value
coil_value-eq-ok raw v h = ground arith

-- A request that is what the decoder returned explains the same PDU.
explain : {r s : Request} {pdu : Bytes} → ok s ≡ ok r → Explains s pdu → Explains r pdu
explain {pdu} e x = subst (λ r. Explains r pdu) (ok_injective e) x

-- A read or a single write is five bytes: its code and two words.
pair_step :
    (k : ℕ) (rest : Bytes) {r : Request} (make : ℕ × ℕ × ℕ → Result Request)
    → IsBytes (k ∷ rest)
    → (read_request (k ∷ rest) >>= make) ≡ ok r
    → ((fc a q : ℕ) → ReadParts (k ∷ rest) fc a q → make (fc, a, q) ≡ ok r → Explains r (k ∷ rest))
    → Explains r (k ∷ rest)
pair_step k rest make hb h then_ =
    let ((fc, a, q), read, e) = bind-eq-ok (read_request (k ∷ rest)) make h in
    then_ fc a q (read_request-eq-ok (k ∷ rest) hb read) e

pair_bytes :
    {k : ℕ} {rest : Bytes} {fc a q : ℕ} → ReadParts (k ∷ rest) fc a q → word_pair k a q ≡ k ∷ rest
pair_bytes parts = ground arith

pair-Explains :
    (make : ℕ → ℕ → Request) (k : ℕ) (rest : Bytes) {r : Request}
    → ((a q : ℕ) → request_bytes (make a q) ≡ word_pair k a q)
    → ((a q : ℕ) → IsWord a → IsWord q → IsEncodable (make a q))
    → IsBytes (k ∷ rest)
    → (read_request (k ∷ rest) >>= λ x. ok (make x.1 x.2)) ≡ ok r
    → Explains r (k ∷ rest)
pair-Explains make k rest bytes fits hb h =
    pair_step k rest (λ x. ok (make x.1 x.2)) hb h
      λ fc a q parts e. explain e (record {
        encodable = fits a q parts.address parts.quantity;
        canonical = λ _. bytes a q ∙ pair_bytes parts;
      })

coil-Explains :
    (rest : Bytes) {r : Request}
    → IsBytes (5 ∷ rest)
    → decode_by_code 5 (5 ∷ rest) ≡ ok r
    → Explains r (5 ∷ rest)
unfolding decode_by_code
coil-Explains rest hb h =
    pair_step 5 rest (λ x. coil_value x.2 >>= λ v. ok (write_single_coil_request x.1 v)) hb h
      λ fc a q parts e.
        let (v, value, e') = bind-eq-ok (coil_value q) _ e in
        explain e' (record {
          encodable = parts.address;
          canonical = λ _. rw (← coil_value-eq-ok q v value) (pair_bytes parts);
        })

coils_parts :
    (rest : Bytes) {a q : ℕ} {payload : Bytes} {bits : List Bool}
    → MultiParts (15 ∷ rest) 15 15 a q payload
    → unpack_bits payload q ≡ ok bits
    → Explains (write_multiple_coils_request a bits) (15 ∷ rest)
coils_parts rest {a} {q} {payload} {bits} parts unpacked =
    let len = length-unpack_bits payload q unpacked in
    record {
      encodable = (parts.address, omega arith);
      canonical = λ clear.
          let packed =
            pack_bits-unpack_bits payload q parts.payload_bytes parts.consistent
              (λ j le. sym (ap (λ b. bit_at (drop 6 b) j) parts.bytes) ∙ clear j (omega arith))
              unpacked in
          rw (len, packed) (sym parts.bytes);
    }

coils-Explains :
    (rest : Bytes) {r : Request}
    → IsBytes (15 ∷ rest)
    → decode_by_code 15 (15 ∷ rest) ≡ ok r
    → Explains r (15 ∷ rest)
unfolding decode_by_code
coils-Explains rest hb h =
    let ((a, q, payload), read, e) = bind-eq-ok (decode_multi_write (15 ∷ rest) 15) _ h in
    let (bits, unpacked, e') = bind-eq-ok (unpack_bits payload q) _ e in
    explain e' (coils_parts rest (decode_multi_write-eq-ok 15 rest 15 hb read) unpacked)

registers_parts :
    (rest : Bytes) {a q : ℕ} {payload : Bytes} {values : List ℕ}
    → MultiParts (16 ∷ rest) 16 16 a q payload
    → unpack_registers payload ≡ ok values
    → Explains (write_multiple_registers_request a values) (16 ∷ rest)
registers_parts rest {a} {q} {payload} {values} parts unpacked =
    let (words, packed) = pack_registers-unpack_registers payload parts.payload_bytes unpacked in
    let len : length values ≡ q = omega (arith, length-word_bytes values, ap length packed) in
    record {
      encodable = (parts.address, (omega arith, words));
      canonical = λ _. rw (len, packed) (sym parts.bytes);
    }

registers-Explains :
    (rest : Bytes) {r : Request}
    → IsBytes (16 ∷ rest)
    → decode_by_code 16 (16 ∷ rest) ≡ ok r
    → Explains r (16 ∷ rest)
unfolding decode_by_code
registers-Explains rest hb h =
    let ((a, q, payload), read, e) = bind-eq-ok (decode_multi_write (16 ∷ rest) 16) _ h in
    let (values, unpacked, e') = bind-eq-ok (unpack_registers payload) _ e in
    explain e' (registers_parts rest (decode_multi_write-eq-ok 16 rest 16 hb read) unpacked)

-- The claim at one function code.
abbrev ExplainsAt : ℕ → Bytes → Request → Type 0
ExplainsAt fc rest r =
    IsBytes (fc ∷ rest) → decode_by_code fc (fc ∷ rest) ≡ ok r → Explains r (fc ∷ rest)

at_code :
    {fc k : ℕ} (rest : Bytes) (r : Request) → fc ≡ k → ExplainsAt k rest r → ExplainsAt fc rest r
at_code rest r e x = subst (λ c. ExplainsAt c rest r) (sym e) x

decode_by_code-Explains : {fc : ℕ} (rest : Bytes) (r : Request) → CodeView fc → ExplainsAt fc rest r
unfolding decode_by_code
decode_by_code-Explains rest r (is_read_coils e) =
    at_code rest r e (pair-Explains read_coils_request 1 rest (λ a q. refl) (λ a q h k. (h, k)))
decode_by_code-Explains rest r (is_read_discrete_inputs e) =
    at_code rest r e
      (pair-Explains read_discrete_inputs_request 2 rest (λ a q. refl) (λ a q h k. (h, k)))
decode_by_code-Explains rest r (is_read_holding_registers e) =
    at_code rest r e
      (pair-Explains read_holding_registers_request 3 rest (λ a q. refl) (λ a q h k. (h, k)))
decode_by_code-Explains rest r (is_read_input_registers e) =
    at_code rest r e
      (pair-Explains read_input_registers_request 4 rest (λ a q. refl) (λ a q h k. (h, k)))
decode_by_code-Explains rest r (is_write_single_coil e) = at_code rest r e (coil-Explains rest)
decode_by_code-Explains rest r (is_write_single_register e) =
    at_code rest r e
      (pair-Explains write_single_register_request 6 rest (λ a q. refl) (λ a q h k. (h, k)))
decode_by_code-Explains rest r (is_write_multiple_coils e) = at_code rest r e (coils-Explains rest)
decode_by_code-Explains rest r (is_write_multiple_registers e) =
    at_code rest r e (registers-Explains rest)
decode_by_code-Explains rest r (is_unsupported e) = λ hb h. absurd (ground arith)

decode_request_pdu-Explains :
    (pdu : Bytes) {r : Request} → IsBytes pdu → decode_request_pdu pdu ≡ ok r → Explains r pdu
unfolding decode_request_pdu
decode_request_pdu-Explains [] hb h = cc
decode_request_pdu-Explains (fc ∷ rest) {r} hb h =
    decode_by_code-Explains rest r (code_view fc) hb h

-- Every request that is decoded fits the wire format.
pub decode_request_pdu-IsEncodable :
    (pdu : Bytes) {r : Request} → IsBytes pdu → decode_request_pdu pdu ≡ ok r → IsEncodable r
decode_request_pdu-IsEncodable pdu hb h = (decode_request_pdu-Explains pdu hb h).encodable

-- A request that was decoded from bytes whose padding bits are clear is encoded to those bytes.
pub encode_request_pdu-decode_request_pdu :
    (pdu : Bytes) {r : Request}
    → IsBytes pdu
    → decode_request_pdu pdu ≡ ok r
    → HasClearPadding r pdu
    → encode_request_pdu r ≡ ok pdu
encode_request_pdu-decode_request_pdu pdu {r} hb h clear =
    let why = decode_request_pdu-Explains pdu hb h in
    encode_request_pdu_lem r why.encodable ∙ ap ok (why.canonical clear)
