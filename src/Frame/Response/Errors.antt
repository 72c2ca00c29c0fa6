-- ===== src/Frame/Response/Errors.antt =====
-- The exceptions of `decode_response_pdu`.
use modbus_sim.Prelude.{
  ℕ, ◌<◌, ◌+◌, ◌%◌, ◌≤◌, ◌≡◌, refl, arith, Bool, true, false, ◌||◌, not, ◌==◌, if◌then◌else◌,
  Option, none, some, [], ◌∷◌, Bytes, length, inl, inr, ◌⊎◌, Bool-cases,
}
use modbus_sim.Result.{
  Exception, ModbusError, Result, ok, err, Result-cases, modbus_error, illegal_data_value,
  illegal_function, index_error, Raises, bind-Raises, ok-Raises,
}
use modbus_sim.Frame.Constants.{
  read_coils, read_discrete_inputs, read_holding_registers, read_input_registers, write_single_coil,
  write_single_register, write_multiple_coils, write_multiple_registers,
}
use modbus_sim.Frame.Struct.{unpack_bhh}
use modbus_sim.Frame.Bits.{unpack_bits}
use modbus_sim.Frame.Registers.{unpack_registers}
use modbus_sim.Frame.Registers.RoundTrip.{unpack_registers_total}
use modbus_sim.Frame.Request.{read_request}
use modbus_sim.Frame.Request.Parts.{read_request-eq-err}
use modbus_sim.Frame.Response.{
  Response, is_exception, checked_count, decode_by_code, decode_response_pdu,
}
use modbus_sim.Frame.Response.Mask.{is_exception_lem}

-- A `ModbusError`, of whatever kind and function code.
abbrev pub IsModbusError : Exception → Type 0
IsModbusError e = (m : ModbusError) × (fc : Option ℕ) × (e ≡ modbus_error m fc)

unpack_bits-Raises : (bytes : Bytes) (n : ℕ) → Raises IsModbusError (unpack_bits bytes n)
unfolding unpack_bits
unpack_bits-Raises bytes n e h = (illegal_data_value, none, ground arith)

unpack_registers-Raises : (bytes : Bytes) → Raises IsModbusError (unpack_registers bytes)
unfolding unpack_registers
unpack_registers-Raises bytes e h = elim (Bool-cases (length bytes % 2 == 0)) [
  | inl even ↦
      let (xs, same) = unpack_registers_total bytes (ground arith) in absurd (ground (arith, same))
  | inr odd ↦ (illegal_data_value, none, ground arith)
]

read_request-Raises : (fc : ℕ) (rest : Bytes) → Raises IsModbusError (read_request (fc ∷ rest))
read_request-Raises fc rest e h = (illegal_data_value, some fc, read_request-eq-err fc rest h)

unpack_bhh-Raises : (pdu : Bytes) → length pdu ≡ 5 → Raises IsModbusError (unpack_bhh pdu)
unfolding unpack_bhh
unpack_bhh-Raises (a ∷ b ∷ c ∷ d ∷ f ∷ []) l e h = absurd (cc h)
unpack_bhh-Raises _ l e h = absurd (ground arith)

illegal-Raises {ℓ} :
    {A : Type ℓ} (m : ModbusError) (fc : Option ℕ)
    → Raises {A = A} IsModbusError (err (modbus_error m fc))
illegal-Raises m fc e h = (m, fc, ground arith)

if-Raises {ℓ} :
    {A : Type ℓ} (c : Bool) {x y : Result A}
    → ((c ≡ true) → Raises IsModbusError x)
    → ((c ≡ false) → Raises IsModbusError y)
    → Raises IsModbusError (if c then x else y)
if-Raises true h k = h refl
if-Raises false h k = k refl

checked_count-Raises :
    (fc b : ℕ) (rest : Bytes) → Raises IsModbusError (checked_count (fc ∷ b ∷ rest))
unfolding checked_count
checked_count-Raises fc b rest =
    if-Raises (not (length (fc ∷ b ∷ rest) == 2 + b)) (λ _. illegal-Raises illegal_data_value none)
      (λ _. ok-Raises IsModbusError b)

decode_by_code-Raises :
    (fc b : ℕ) (rest : Bytes) (bit_count : Option ℕ)
    → Raises IsModbusError (decode_by_code fc (fc ∷ b ∷ rest) bit_count)
unfolding decode_by_code
decode_by_code-Raises fc b rest bit_count =
    if-Raises (is_exception fc)
      (λ _.
        if-Raises (not (length (fc ∷ b ∷ rest) == 2)) (λ _. illegal-Raises illegal_data_value none)
          (λ _. ok-Raises IsModbusError _))
      (λ _.
        if-Raises (fc == read_coils || fc == read_discrete_inputs)
          (λ _.
            bind-Raises IsModbusError (checked_count (fc ∷ b ∷ rest)) _
              (checked_count-Raises fc b rest)
              (λ n.
                bind-Raises IsModbusError _ _ (unpack_bits-Raises rest _)
                  (λ bits. ok-Raises IsModbusError _)))
          (λ _.
            if-Raises (fc == read_holding_registers || fc == read_input_registers)
              (λ _.
                bind-Raises IsModbusError (checked_count (fc ∷ b ∷ rest)) _
                  (checked_count-Raises fc b rest)
                  (λ n.
                    bind-Raises IsModbusError _ _ (unpack_registers-Raises rest)
                      (λ regs. ok-Raises IsModbusError _)))
              (λ _.
                if-Raises (fc == write_single_coil || fc == write_single_register)
                  (λ _.
                    bind-Raises IsModbusError _ _ (read_request-Raises fc (b ∷ rest))
                      (λ fields. ok-Raises IsModbusError _))
                  (λ _.
                    if-Raises (fc == write_multiple_coils || fc == write_multiple_registers)
                      (λ _.
                        if-Raises (not (length (fc ∷ b ∷ rest) == 5))
                          (λ _. illegal-Raises illegal_data_value none)
                          (λ five.
                            bind-Raises IsModbusError _ _
                              (unpack_bhh-Raises (fc ∷ b ∷ rest) (ground (arith, five)))
                              (λ fields. ok-Raises IsModbusError _)))
                      (λ _. illegal-Raises illegal_function (some fc))))))

-- A PDU of the function code alone, where it is not that of a read.
code_alone-Raises :
    (fc : ℕ) (bit_count : Option ℕ)
    → (fc < 1) ⊎ (4 < fc)
    → Raises IsModbusError (decode_by_code fc (fc ∷ []) bit_count)
unfolding decode_by_code
code_alone-Raises fc bit_count other =
    if-Raises (is_exception fc) (λ _. illegal-Raises illegal_data_value none)
      (λ _.
        if-Raises (fc == read_coils || fc == read_discrete_inputs)
          (λ read. absurd (ground (arith, read, other)))
          (λ _.
            if-Raises (fc == read_holding_registers || fc == read_input_registers)
              (λ read. absurd (ground (arith, read, other)))
              (λ _.
                if-Raises (fc == write_single_coil || fc == write_single_register)
                  (λ _. illegal-Raises illegal_data_value (some fc))
                  (λ _.
                    if-Raises (fc == write_multiple_coils || fc == write_multiple_registers)
                      (λ _. illegal-Raises illegal_data_value none)
                      (λ _. illegal-Raises illegal_function (some fc))))))

decode_response_pdu_truncated :
    (fc : ℕ) (bit_count : Option ℕ)
    → 1 ≤ fc
    → fc ≤ 4
    → decode_response_pdu (fc ∷ []) bit_count ≡ err index_error
unfolding decode_response_pdu
decode_response_pdu_truncated fc bit_count lo hi = ground (arith, is_exception_lem fc (omega arith))

-- A PDU that is only the function code of a read.
abbrev pub IsTruncated : Bytes → Type 0
IsTruncated (fc ∷ []) = (1 ≤ fc) × (fc ≤ 4)
IsTruncated _ = ⊥

code_cases : (fc : ℕ) → ((1 ≤ fc) × (fc ≤ 4)) ⊎ ((fc < 1) ⊎ (4 < fc))
code_cases fc = ground arith

decode_response_pdu-eq-err :
    (pdu : Bytes) (bit_count : Option ℕ) {e : Exception}
    → decode_response_pdu pdu bit_count ≡ err e
    → (IsTruncated pdu × (e ≡ index_error)) ⊎ ((¬ IsTruncated pdu) × IsModbusError e)
unfolding decode_response_pdu
decode_response_pdu-eq-err [] bit_count h = inr (λ t. t, (illegal_data_value, none, ground arith))
decode_response_pdu-eq-err (fc ∷ []) bit_count {e} h = elim (code_cases fc) [
  | inl read ↦ inl (read, ground (arith, decode_response_pdu_truncated fc bit_count read.0 read.1))
  | inr other ↦ inr (λ t. ground (arith, t, other), code_alone-Raises fc bit_count other e h)
]
decode_response_pdu-eq-err (fc ∷ b ∷ rest) bit_count {e} h =
    inr (λ t. t, decode_by_code-Raises fc b rest bit_count e h)

-- How a PDU is decoded: the function code of a read alone is an `IndexError`, and of no other PDU comes
-- anything but a response or a `ModbusError`.
pub data IsDecoded (pdu : Bytes) : Result Response → Type 0 where
  truncated : IsTruncated pdu → IsDecoded pdu (err index_error)
  refused : (e : Exception) → ¬ IsTruncated pdu → IsModbusError e → IsDecoded pdu (err e)
  decoded : (response : Response) → ¬ IsTruncated pdu → IsDecoded pdu (ok response)

IsTruncated-cases :
    (pdu : Bytes) (bit_count : Option ℕ)
    → (IsTruncated pdu × (decode_response_pdu pdu bit_count ≡ err index_error))
      ⊎ (¬ IsTruncated pdu)
IsTruncated-cases [] bit_count = inr (λ t. t)
IsTruncated-cases (fc ∷ []) bit_count = elim (code_cases fc) [
  | inl read ↦ inl (read, decode_response_pdu_truncated fc bit_count read.0 read.1)
  | inr other ↦ inr (λ t. ground (arith, t, other))
]
IsTruncated-cases (fc ∷ b ∷ rest) bit_count = inr (λ t. t)

-- `decode_response_pdu` raises `IndexError` for every PDU that is only the function code of a read, since it reads the
-- byte count first; any other PDU it decodes to a response, or refuses with a `ModbusError`.
pub decode_response_pdu-IsDecoded :
    (pdu : Bytes) (bit_count : Option ℕ) → IsDecoded pdu (decode_response_pdu pdu bit_count)
decode_response_pdu-IsDecoded pdu bit_count = elim (IsTruncated-cases pdu bit_count) [
  | inl (short, same) ↦ rw same (truncated short)
  | inr whole ↦ elim (Result-cases (decode_response_pdu pdu bit_count)) [
    | inl (response, same) ↦ rw same (decoded response whole)
    | inr (e, same) ↦ rw same (elim (decode_response_pdu-eq-err pdu bit_count same) [
      | inl (short, _) ↦ absurd (whole short)
      | inr (_, modbus) ↦ refused e whole modbus
    ])
  ]
]
