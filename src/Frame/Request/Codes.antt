-- ===== src/Frame/Request/Codes.antt =====
-- `SUPPORTED_FUNCTION_CODES` of modbus_sim/frame.py, and a case split on a function code.
use modbus_sim.Prelude.{ℕ, Bool, false, ◌||◌, ◌≡◌, inl, inr, arith, ◌==◌, Bool-cases}
use modbus_sim.Frame.Constants.{
  read_coils, read_discrete_inputs, read_holding_registers, read_input_registers, write_single_coil,
  write_single_register, write_multiple_coils, write_multiple_registers,
}

-- Membership in `SUPPORTED_FUNCTION_CODES`.
abbrev pub is_supported : ℕ → Bool
is_supported fc =
    fc == read_coils
    || (fc == read_discrete_inputs
        || (fc == read_holding_registers
            || (fc == read_input_registers
                || (fc == write_single_coil
                    || (fc == write_single_register
                        || (fc == write_multiple_coils || fc == write_multiple_registers))))))

pub data CodeView (fc : ℕ) : Type 0 where
  is_read_coils : fc ≡ read_coils → CodeView fc
  is_read_discrete_inputs : fc ≡ read_discrete_inputs → CodeView fc
  is_read_holding_registers : fc ≡ read_holding_registers → CodeView fc
  is_read_input_registers : fc ≡ read_input_registers → CodeView fc
  is_write_single_coil : fc ≡ write_single_coil → CodeView fc
  is_write_single_register : fc ≡ write_single_register → CodeView fc
  is_write_multiple_coils : fc ≡ write_multiple_coils → CodeView fc
  is_write_multiple_registers : fc ≡ write_multiple_registers → CodeView fc
  is_unsupported : is_supported fc ≡ false → CodeView fc

test : {fc k : ℕ} → (fc ≡ k → CodeView fc) → ((fc == k) ≡ false → CodeView fc) → CodeView fc
test {fc} {k} then_ else_ = elim (Bool-cases (fc == k)) [
  | inl e ↦ then_ (ground arith)
  | inr e ↦ else_ e
]

pub code_view : (fc : ℕ) → CodeView fc
code_view fc = test is_read_coils λ e1. test is_read_discrete_inputs λ e2.
    test is_read_holding_registers λ e3. test is_read_input_registers λ e4.
      test is_write_single_coil λ e5. test is_write_single_register λ e6.
        test is_write_multiple_coils λ e15.
          test is_write_multiple_registers
            λ e16. is_unsupported (rw (e1, e2, e3, e4, e5, e6, e15, e16))
