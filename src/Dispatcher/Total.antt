-- ===== src/Dispatcher/Total.antt =====
-- The bytes and the device that `process_pdu` leaves for an arbitrary PDU.
use modbus_sim.Prelude.{
  ℕ, ◌<◌, ◌≤◌, ◌≡◌, refl, Option, none, some, [], ◌∷◌, arith, length, inl, inr, Bool-cases, Bytes,
  IsBytes,
}
use modbus_sim.Result.{ModbusError, Result, ok, err}
use modbus_sim.Frame.Request.{Request, decode_request_pdu}
use modbus_sim.Frame.Request.Codes.{is_supported}
use modbus_sim.Frame.Request.Decoded.{decode_request_pdu-IsEncodable}
use modbus_sim.Frame.Request.Valid
use modbus_sim.Frame.Response.{set_mask}
use modbus_sim.Frame.Response.Valid.{response_bytes, response_bytes-IsBytes}
use modbus_sim.Frame.Response.Mask.{set_mask_lem}
use modbus_sim.Datastore.Device.{Device, IsValid}
use modbus_sim.Dispatcher.{process_pdu, exception_code}
use modbus_sim.Dispatcher.Verdict.{verdict, outcome}
use modbus_sim.Dispatcher.Outcome.{outcome-Fits, outcome-IsValid}
use modbus_sim.Dispatcher.Reply.{
  refused, answer_ruled, answer_decoded, reply, process_pdu-reply, exception_code-lt,
}

-- A PDU of 2 to 252 bytes, and a valid device.
pub record IsAnswer (o : Result Bytes × Device) : Type 0 where
  pub pdu : Bytes
  pub sent : o.0 ≡ ok pdu
  pub bytes : IsBytes pdu
  pub long : 2 ≤ length pdu
  pub short : length pdu ≤ 252
  pub device : IsValid o.1

refused-IsAnswer :
    (d : Device) (fc code : ℕ) → IsValid d → fc < 256 → code < 256 → IsAnswer (refused d fc code)
refused-IsAnswer d fc code v h k = record {
  pdu = set_mask fc ∷ code ∷ [];
  sent = refl;
  bytes = (ground (arith, set_mask_lem fc h), (k, tt));
  long = omega arith;
  short = omega arith;
  device = v;
}

answer_ruled-IsAnswer :
    (d : Device) (fc : ℕ) (r : Request)
    → IsValid d
    → fc < 256
    → Valid.IsEncodable r
    → (o : Option ModbusError) → verdict d r ≡ o
    → IsAnswer (answer_ruled d fc (outcome d r) o)
answer_ruled-IsAnswer d fc r v h fits none e =
    let out = outcome-Fits d r v fits e in
    record {
      pdu = response_bytes (outcome d r).0;
      sent = refl;
      bytes = response_bytes-IsBytes (outcome d r).0 out.encodable;
      long = out.long;
      short = out.short;
      device = outcome-IsValid d r v fits e;
    }
answer_ruled-IsAnswer d fc r v h fits (some m) e =
    refused-IsAnswer d fc (exception_code m) v h (exception_code-lt m)

decoded-IsAnswer :
    (d : Device) (fc : ℕ) (rest : Bytes) (r : Result Request)
    → IsValid d
    → IsBytes (fc ∷ rest)
    → decode_request_pdu (fc ∷ rest) ≡ r
    → IsAnswer (answer_decoded d fc r)
decoded-IsAnswer d fc rest (ok r) v hb e =
    answer_ruled-IsAnswer d fc r v hb.0 (decode_request_pdu-IsEncodable (fc ∷ rest) hb e)
      (verdict d r) refl
decoded-IsAnswer d fc rest (err x) v hb e = refused-IsAnswer d fc 3 v hb.0 (omega arith)

reply-IsAnswer : (d : Device) (pdu : Bytes) → IsValid d → IsBytes pdu → IsAnswer (reply d pdu)
reply-IsAnswer d [] v hb = refused-IsAnswer d 0 3 v (omega arith) (omega arith)
reply-IsAnswer d (fc ∷ rest) v hb = elim (Bool-cases (is_supported fc)) [
  | inl s ↦ rw s (decoded-IsAnswer d fc rest (decode_request_pdu (fc ∷ rest)) v hb refl)
  | inr u ↦ rw u (refused-IsAnswer d fc 1 v hb.0 (omega arith))
]

-- Whatever bytes arrive, `process_pdu` on a valid device returns a PDU of 2 to 252 bytes, with no
-- exception raised, and the device is valid afterwards.
pub process_pdu-IsAnswer :
    (d : Device) (pdu : Bytes) → IsValid d → IsBytes pdu → IsAnswer (process_pdu d pdu)
process_pdu-IsAnswer d pdu v hb = rw (process_pdu-reply d pdu v hb) (reply-IsAnswer d pdu v hb)
