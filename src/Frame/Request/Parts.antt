-- ===== src/Frame/Request/Parts.antt =====
-- What `_read_request` and `_decode_multi_write` accept and refuse.
use modbus_sim.Prelude.{
  ℕ, ◌+◌, ◌*◌, ◌/◌, ◌≡◌, some, arith, ◌==◌, if◌then◌else◌, [], ◌∷◌, ◌++◌, length, IsByte, IsWord,
  Bytes, IsBytes,
}
use modbus_sim.Result.{Exception, ok, err, modbus_error, illegal_data_value}
use modbus_sim.Frame.Request.{read_request, decode_multi_write}
use modbus_sim.Frame.Request.Valid.{word_pair}

pub record ReadParts (pdu : Bytes) (fc a q : ℕ) : Type 0 where
  pub bytes : pdu ≡ word_pair fc a q
  pub address : IsWord a
  pub quantity : IsWord q

pub read_request-eq-ok :
    (pdu : Bytes) {fc a q : ℕ}
    → IsBytes pdu
    → read_request pdu ≡ ok (fc, a, q)
    → ReadParts pdu fc a q
unfolding read_request
read_request-eq-ok (b ∷ c ∷ d ∷ e ∷ f ∷ []) hb h = ground arith
read_request-eq-ok _ hb h = absurd (ground arith)

pub read_request-eq-err :
    (fc : ℕ) (rest : Bytes) {e : Exception}
    → read_request (fc ∷ rest) ≡ err e
    → e ≡ modbus_error illegal_data_value (some fc)
unfolding read_request
read_request-eq-err fc (b ∷ c ∷ d ∷ e ∷ []) h = cc
read_request-eq-err fc _ h = ground arith

abbrev pub expected : ℕ → ℕ → ℕ
expected fc q = if fc == 16 then 2 * q else (q + 7) / 8

pub record MultiParts (pdu : Bytes) (fc first a q : ℕ) (payload : Bytes) : Type 0 where
  pub bytes : pdu ≡ word_pair first a q ++ length payload ∷ payload
  pub address : IsWord a
  pub quantity : IsWord q
  pub count : IsByte (length payload)
  pub consistent : length payload ≡ expected fc q
  pub payload_bytes : IsBytes payload

pub decode_multi_write-eq-ok :
    (first : ℕ) (rest : Bytes) (fc : ℕ) {a q : ℕ} {payload : Bytes}
    → IsBytes (first ∷ rest)
    → decode_multi_write (first ∷ rest) fc ≡ ok (a, q, payload)
    → MultiParts (first ∷ rest) fc first a q payload
unfolding decode_multi_write
decode_multi_write-eq-ok first (b ∷ c ∷ d ∷ e ∷ f ∷ rest) fc hb h = ground arith
decode_multi_write-eq-ok first _ fc hb h = absurd (ground arith)

pub decode_multi_write-eq-err :
    (pdu : Bytes) (fc : ℕ) {e : Exception}
    → decode_multi_write pdu fc ≡ err e
    → e ≡ modbus_error illegal_data_value (some fc)
unfolding decode_multi_write
decode_multi_write-eq-err (a ∷ b ∷ c ∷ d ∷ e ∷ f ∷ rest) fc h = ground arith
decode_multi_write-eq-err _ fc h = ground arith
