-- ===== src/Frame/Request/Errors.antt =====
-- The exceptions of `decode_request_pdu`.
use modbus_sim.Prelude.{
  ℕ, ◌≡◌, inl, inr, sym, subst, some, none, true, false, arith, if◌then◌else◌, [], ◌∷◌, Bytes,
  IsBytes, Bool-cases,
}
use modbus_sim.Result.{
  Exception, Result, ok, err, modbus_error, illegal_data_value, illegal_function, ◌>>=◌,
  bind-eq-err,
}
use modbus_sim.Frame.Bits.RoundTrip.{unpack_bits_total}
use modbus_sim.Frame.Registers.RoundTrip.{unpack_registers_total}
use modbus_sim.Frame.Request.{
  Request, read_coils_request, read_discrete_inputs_request, read_holding_registers_request,
  read_input_registers_request, write_single_register_request, decode_by_code, decode_request_pdu,
  write_single_coil_request, read_request, coil_value, decode_multi_write,
}
use modbus_sim.Frame.Request.Codes.{
  CodeView, is_read_coils, is_read_discrete_inputs, is_read_holding_registers,
  is_read_input_registers, is_write_single_coil, is_write_single_register, is_write_multiple_coils,
  is_write_multiple_registers, is_unsupported, code_view, is_supported,
}
use modbus_sim.Frame.Request.Parts.{
  read_request-eq-err, decode_multi_write-eq-ok, decode_multi_write-eq-err,
}

-- Illegal Data Value, with the function code of the request.
abbrev pub illegal_value : ℕ → Exception
illegal_value fc = modbus_error illegal_data_value (some fc)

read_step-eq-err :
    (k : ℕ) (rest : Bytes) {e : Exception} (make : ℕ × ℕ × ℕ → Result Request)
    → (read_request (k ∷ rest) >>= make) ≡ err e
    → ((x : ℕ × ℕ × ℕ) → make x ≡ err e → e ≡ illegal_value k)
    → e ≡ illegal_value k
read_step-eq-err k rest make h then_ = elim (bind-eq-err (read_request (k ∷ rest)) make h) [
  | inl refused ↦ read_request-eq-err k rest refused
  | inr (x, read, later) ↦ then_ x later
]

pair-eq-err :
    (k : ℕ) (rest : Bytes) {e : Exception} (make : ℕ → ℕ → Request)
    → (read_request (k ∷ rest) >>= λ x. ok (make x.1 x.2)) ≡ err e
    → e ≡ illegal_value k
pair-eq-err k rest make h = read_step-eq-err k rest (λ x. ok (make x.1 x.2)) h (λ x z. cc)

coil_value-eq-err :
    (raw : ℕ) {e : Exception}
    → (coil_value raw >>= λ v. ok (write_single_coil_request 0 v)) ≡ err e
    → e ≡ illegal_value 5
unfolding coil_value
coil_value-eq-err raw h = ground arith

coil-eq-err :
    (rest : Bytes) {e : Exception} → decode_by_code 5 (5 ∷ rest) ≡ err e → e ≡ illegal_value 5
unfolding decode_by_code
coil-eq-err rest h =
    read_step-eq-err 5 rest (λ x. coil_value x.2 >>= λ v. ok (write_single_coil_request x.1 v)) h
      (λ x refused. ground arith)

coils-eq-err :
    (rest : Bytes) {e : Exception}
    → IsBytes (15 ∷ rest)
    → decode_by_code 15 (15 ∷ rest) ≡ err e
    → e ≡ illegal_value 15
unfolding decode_by_code
coils-eq-err rest hb h = elim (bind-eq-err (decode_multi_write (15 ∷ rest) 15) _ h) [
  | inl refused ↦ decode_multi_write-eq-err (15 ∷ rest) 15 refused
  | inr ((a, q, payload), read, later) ↦
      let parts = decode_multi_write-eq-ok 15 rest 15 hb read in
      let (bits, unpacked) = unpack_bits_total payload q (omega arith) in
      absurd (cc (later, unpacked))
]

registers-eq-err :
    (rest : Bytes) {e : Exception}
    → IsBytes (16 ∷ rest)
    → decode_by_code 16 (16 ∷ rest) ≡ err e
    → e ≡ illegal_value 16
unfolding decode_by_code
registers-eq-err rest hb h = elim (bind-eq-err (decode_multi_write (16 ∷ rest) 16) _ h) [
  | inl refused ↦ decode_multi_write-eq-err (16 ∷ rest) 16 refused
  | inr ((a, q, payload), read, later) ↦
      let parts = decode_multi_write-eq-ok 16 rest 16 hb read in
      let (registers, unpacked) = unpack_registers_total payload (omega arith) in
      absurd (ground (arith, unpacked, later))
]

-- The claim at one function code.
abbrev RefusedAt : ℕ → Bytes → Exception → Type 0
RefusedAt fc rest e =
    IsBytes (fc ∷ rest) → decode_by_code fc (fc ∷ rest) ≡ err e → e ≡ illegal_value fc

at_code :
    {fc k : ℕ} (rest : Bytes) (e : Exception) → fc ≡ k → RefusedAt k rest e → RefusedAt fc rest e
at_code rest r e x = subst (λ c. RefusedAt c rest r) (sym e) x

decode_by_code-eq-err :
    {fc : ℕ} (rest : Bytes) (e : Exception)
    → CodeView fc
    → is_supported fc ≡ true
    → RefusedAt fc rest e
unfolding decode_by_code
decode_by_code-eq-err rest x (is_read_coils e) s =
    at_code rest x e (λ hb. pair-eq-err 1 rest read_coils_request)
decode_by_code-eq-err rest x (is_read_discrete_inputs e) s =
    at_code rest x e (λ hb. pair-eq-err 2 rest read_discrete_inputs_request)
decode_by_code-eq-err rest x (is_read_holding_registers e) s =
    at_code rest x e (λ hb. pair-eq-err 3 rest read_holding_registers_request)
decode_by_code-eq-err rest x (is_read_input_registers e) s =
    at_code rest x e (λ hb. pair-eq-err 4 rest read_input_registers_request)
decode_by_code-eq-err rest x (is_write_single_coil e) s = at_code rest x e (λ hb. coil-eq-err rest)
decode_by_code-eq-err rest x (is_write_single_register e) s =
    at_code rest x e (λ hb. pair-eq-err 6 rest write_single_register_request)
decode_by_code-eq-err rest x (is_write_multiple_coils e) s = at_code rest x e (coils-eq-err rest)
decode_by_code-eq-err rest x (is_write_multiple_registers e) s =
    at_code rest x e (registers-eq-err rest)
decode_by_code-eq-err rest x (is_unsupported e) s = absurd (cc (s, e))

-- A PDU whose function code is not supported is refused, whatever follows the code.
pub decode_request_pdu-is_unsupported :
    (fc : ℕ) (rest : Bytes)
    → is_supported fc ≡ false
    → decode_request_pdu (fc ∷ rest) ≡ err (modbus_error illegal_function (some fc))
unfolding decode_request_pdu decode_by_code
decode_request_pdu-is_unsupported fc rest h = ground arith

-- An empty PDU is refused with no function code; any other refusal names the PDU's own.
abbrev pub Refusal : Bytes → Exception → Type 0
Refusal [] e = e ≡ modbus_error illegal_data_value none
Refusal (fc ∷ rest) e =
    e ≡ (if is_supported fc then illegal_value fc else modbus_error illegal_function (some fc))

-- The exceptions of `decode_request_pdu` on bytes: an empty PDU is an illegal data value with no
-- function code, a code that is not supported an illegal function, and any other refusal an
-- illegal data value; the last two name the PDU's own function code.
pub decode_request_pdu-eq-err :
    (pdu : Bytes) {e : Exception} → IsBytes pdu → decode_request_pdu pdu ≡ err e → Refusal pdu e
unfolding decode_request_pdu
decode_request_pdu-eq-err [] hb h = ground arith
decode_request_pdu-eq-err (fc ∷ rest) {e} hb h = elim (Bool-cases (is_supported fc)) [
  | inl s ↦ rw s (decode_by_code-eq-err rest e (code_view fc) s hb h)
  | inr u ↦ rw u (ground (arith, decode_request_pdu-is_unsupported fc rest u))
]
