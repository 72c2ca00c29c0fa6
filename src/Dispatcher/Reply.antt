-- ===== src/Dispatcher/Reply.antt =====
-- What `process_pdu` answers to every PDU, and in which order the checks win.
use modbus_sim.Prelude.{
  ℕ, ◌<◌, ◌≡◌, refl, ap, true, false, Option, none, some, [], ◌∷◌, arith, if◌then◌else◌, inl, inr,
  Bool-cases, Option-cases, Bytes, IsBytes,
}
use modbus_sim.Result.{ModbusError, Exception, Result, ok, err}
use modbus_sim.Frame.Request.{Request, decode_request_pdu}
use modbus_sim.Frame.Request.Codes.{is_supported}
use modbus_sim.Frame.Request.Decoded.{decode_request_pdu-IsEncodable}
use modbus_sim.Frame.Request.Errors.{
  decode_request_pdu-is_unsupported, decode_request_pdu-eq-err, illegal_value,
}
use modbus_sim.Frame.Response.{
  Response, exception_response, set_mask, clear_mask, encode_response_pdu,
}
use modbus_sim.Frame.Response.Valid.{response_bytes, encode_response_pdu_lem}
use modbus_sim.Frame.Response.Mask.{clear_mask_lem}
use modbus_sim.Datastore.Device.{Device, IsValid}
use modbus_sim.Dispatcher.{process_pdu, exception_code}
use modbus_sim.Dispatcher.Verdict.{verdict, outcome, handle_request-ruling}
use modbus_sim.Dispatcher.Outcome.{outcome-Fits}

-- The exception PDU for a request's function code, and the device as it was.
abbrev pub refused : Device → ℕ → ℕ → Result Bytes × Device
refused d fc code = (ok (set_mask fc ∷ code ∷ []), d)

-- The answer to a request that was decoded under function code `fc`.
abbrev pub answer_ruled :
    Device → ℕ → Response × Device → Option ModbusError → Result Bytes × Device
answer_ruled d fc o (some refusal) = refused d fc (exception_code refusal)
answer_ruled d fc o none = (ok (response_bytes o.0), o.1)

abbrev pub answer : Device → ℕ → Request → Result Bytes × Device
answer d fc r = answer_ruled d fc (outcome d r) (verdict d r)

-- The answer to a PDU: exception 01 for a function code that is not supported, else 03 for a payload
-- that does not decode, else the answer to the request.
abbrev pub answer_decoded : Device → ℕ → Result Request → Result Bytes × Device
answer_decoded d fc (ok r) = answer d fc r
answer_decoded d fc (err e) = refused d fc 3

abbrev pub reply : Device → Bytes → Result Bytes × Device
reply d [] = refused d 0 3
reply d (fc ∷ rest) =
    if is_supported fc then answer_decoded d fc (decode_request_pdu (fc ∷ rest)) else refused d fc 1

refusal_bytes :
    (fc code : ℕ)
    → fc < 256
    → code < 256
    → encode_response_pdu (exception_response fc code) ≡ ok (set_mask fc ∷ code ∷ [])
refusal_bytes fc code h k = encode_response_pdu_lem (exception_response fc code) (h, k)

supported-lt : (fc : ℕ) → is_supported fc ≡ true → fc < 17
supported-lt fc h = ground arith

clear_mask-supported : (fc : ℕ) → is_supported fc ≡ true → clear_mask fc ≡ fc
clear_mask-supported fc h =
    ground (arith, clear_mask_lem fc (omega (arith, supported-lt fc h)), supported-lt fc h)

pub exception_code-lt : (e : ModbusError) → exception_code e < 256
exception_code-lt e = ground arith

reply_decoded :
    (d : Device) (fc : ℕ) (rest : Bytes) (r : Request)
    → IsValid d
    → IsBytes (fc ∷ rest)
    → is_supported fc ≡ true
    → decode_request_pdu (fc ∷ rest) ≡ ok r
    → process_pdu d (fc ∷ rest) ≡ answer d fc r
unfolding process_pdu
reply_decoded d fc rest r v hb s e = elim (Option-cases (verdict d r)) [
  | inl allowed ↦
      rw (e, handle_request-ruling d r, answer, allowed)
        (ap (λ o. (o, (outcome d r).1))
          (encode_response_pdu_lem (outcome d r).0
            (outcome-Fits d r v (decode_request_pdu-IsEncodable (fc ∷ rest) hb e)
              allowed).encodable))
  | inr (m, no_) ↦
      rw (e, handle_request-ruling d r, answer, no_)
        (rw (clear_mask-supported fc s)
          (ap (λ o. (o, d)) (refusal_bytes fc (exception_code m) hb.0 (exception_code-lt m))))
]

reply_refused :
    (d : Device) (fc : ℕ) (rest : Bytes) (e : Exception)
    → IsBytes (fc ∷ rest)
    → is_supported fc ≡ true
    → decode_request_pdu (fc ∷ rest) ≡ err e
    → process_pdu d (fc ∷ rest) ≡ refused d fc 3
unfolding process_pdu
reply_refused d fc rest e hb s h =
    let why : e ≡ illegal_value fc = ground (arith, decode_request_pdu-eq-err (fc ∷ rest) hb h) in
    rw (h, why) (ap (λ o. (o, d)) (refusal_bytes fc 3 hb.0 (omega arith)))

reply_supported :
    (d : Device) (fc : ℕ) (rest : Bytes) (r : Result Request)
    → IsValid d
    → IsBytes (fc ∷ rest)
    → is_supported fc ≡ true
    → decode_request_pdu (fc ∷ rest) ≡ r
    → process_pdu d (fc ∷ rest) ≡ answer_decoded d fc r
reply_supported d fc rest (ok r) v hb s e = reply_decoded d fc rest r v hb s e
reply_supported d fc rest (err x) v hb s e = reply_refused d fc rest x hb s e

reply_unsupported :
    (d : Device) (fc : ℕ) (rest : Bytes)
    → fc < 256
    → is_supported fc ≡ false
    → process_pdu d (fc ∷ rest) ≡ refused d fc 1
unfolding process_pdu
reply_unsupported d fc rest h u =
    rw (decode_request_pdu-is_unsupported fc rest u)
      (ap (λ o. (o, d)) (refusal_bytes fc 1 h (omega arith)))

-- On a valid device every PDU is answered as `reply` says: an unsupported function code first, then a
-- malformed payload, an illegal quantity and an illegal address, in that order; the
-- device changes only where the request is carried out, and exception 04 is never given.
pub process_pdu-reply :
    (d : Device) (pdu : Bytes) → IsValid d → IsBytes pdu → process_pdu d pdu ≡ reply d pdu
process_pdu-reply d [] v hb =
    unfold process_pdu decode_request_pdu in
    ap (λ o. (o, d)) (refusal_bytes 0 3 (omega arith) (omega arith))
process_pdu-reply d (fc ∷ rest) v hb = elim (Bool-cases (is_supported fc)) [
  | inl s ↦ rw s (reply_supported d fc rest (decode_request_pdu (fc ∷ rest)) v hb s refl)
  | inr u ↦ rw u (reply_unsupported d fc rest hb.0 u)
]
