-- ===== src/Server/Connection/Frame.antt =====
-- One frame: whether `_process_frame` drops it, and how it is answered.
use modbus_sim.Prelude.{
  ℕ, ◌≡◌, ◌≢◌, refl, ◌∙◌, Option, none, some, ◌++◌, ◌==◌, not, if◌then◌else◌, drop, Bytes, IsBytes,
  arith, All, All-drop, IsByte, Bool-cases, Option-cases, inl, inr, ◌⊎◌,
}
use modbus_sim.Result.{Result, ok}
use modbus_sim.Frame.Mbap.{MbapHeader}
use modbus_sim.Frame.Mbap.RoundTrip as Mbap
use modbus_sim.Frame.Mbap.RoundTrip.{adu_header, header_bytes, build_adu_lem}
use modbus_sim.Datastore.Device.{Device, IsValid}
use modbus_sim.Datastore.Store.{DataStore, get, update}
use modbus_sim.Datastore.Store.Lookup.{get-update, get-eq-some, All-get, All-update}
use modbus_sim.Dispatcher.{process_pdu}
use modbus_sim.Dispatcher.Effect.{process_pdu-unit_id}
use modbus_sim.Dispatcher.Total.{process_pdu-IsAnswer}
use modbus_sim.Server.Connection.{process_frame, serve_device}

-- Every device of the store is valid.
abbrev pub AreValid : DataStore → Type 0
AreValid = All IsValid

-- The ADU that answers a frame: its PDU is the dispatcher's, under the frame's ids.
abbrev pub answer_adu : MbapHeader → Bytes → Bytes
answer_adu header pdu = header_bytes (adu_header header.transaction_id header.unit_id pdu) ++ pdu

-- A frame that is not Modbus, or is for a unit that the store does not hold, is dropped.
pub process_frame_dropped :
    (header : MbapHeader) (adu : Bytes) (store : DataStore)
    → (header.protocol_id ≢ 0) ⊎ (get store header.unit_id ≡ none)
    → process_frame header adu store ≡ (ok none, store)
unfolding process_frame
process_frame_dropped header adu store h = ground arith

-- What it takes for a frame to be answered by a device.
pub record IsServed (header : MbapHeader) (adu : Bytes) (store : DataStore) (device : Device)
    : Type 0 where
  pub fits : Mbap.IsEncodable header
  pub modbus : header.protocol_id ≡ 0
  pub found : get store header.unit_id ≡ some device
  pub valid : IsValid device
  pub bytes : IsBytes adu

-- A frame for a valid device of the store is answered under its own transaction id and unit, with the PDU of
-- the dispatcher, and the device is changed as the dispatcher changes it.
pub process_frame_answered :
    (header : MbapHeader) (adu : Bytes) (store : DataStore) (device : Device)
    → IsServed header adu store device
    → (pdu : Bytes) × ((process_pdu device (drop 7 adu)).0 ≡ ok pdu)
      × (process_frame header adu store ≡ (
        ok (some (answer_adu header pdu)),
        update store header.unit_id (process_pdu device (drop 7 adu)).1,
      ))
unfolding process_frame
process_frame_answered header adu store device s =
    let answer = process_pdu-IsAnswer device (drop 7 adu) s.valid (All-drop IsByte 7 adu s.bytes) in
    let built = build_adu_lem header.transaction_id header.unit_id answer.pdu (record {
      transaction_id = s.fits.transaction_id;
      protocol_id = omega arith;
      length = omega (arith, answer.short);
      unit_id = s.fits.unit_id;
    }) in
    (answer.pdu, answer.sent, rw (s.modbus, s.found, answer.sent, built))

-- Frames never raise on a valid store, and leave it valid.
pub record IsSettled (o : Result (Option Bytes) × DataStore) : Type 0 where
  pub written : Option Bytes
  pub result : o.0 ≡ ok written
  pub store : AreValid o.1

pub process_frame-IsSettled :
    (header : MbapHeader) (adu : Bytes) (store : DataStore)
    → AreValid store
    → Mbap.IsEncodable header
    → IsBytes adu
    → IsSettled (process_frame header adu store)
process_frame-IsSettled header adu store v fits hb = elim (Bool-cases (header.protocol_id == 0)) [
  | inr other ↦
      rw (process_frame_dropped header adu store (inl (λ e. ground arith)))
        (record { written = none; result = refl; store = v })
  | inl modbus ↦ elim (Option-cases (get store header.unit_id)) [
    | inl absent ↦
        rw (process_frame_dropped header adu store (inr absent))
          (record { written = none; result = refl; store = v })
    | inr (device, found) ↦
        let valid = All-get IsValid store header.unit_id v found in
        let (pdu, sent, out) = process_frame_answered header adu store device (record {
          fits = fits;
          modbus = ground arith;
          found = found;
          valid = valid;
          bytes = hb;
        }) in
        let answer = process_pdu-IsAnswer device (drop 7 adu) valid (All-drop IsByte 7 adu hb) in
        rw out (record {
          written = some (answer_adu header pdu);
          result = refl;
          store = All-update IsValid store header.unit_id _ v answer.device;
        })
  ]
]

serve_device-get :
    (header : MbapHeader) (adu : Bytes) (store : DataStore) (device : Device) (unit_id : ℕ)
    → unit_id ≢ header.unit_id
    → get store header.unit_id ≡ some device
    → get
        (if not (header.protocol_id == 0)
          then (ok none, store)
          else serve_device header adu store device).1
        unit_id
      ≡ get store unit_id
unfolding serve_device
serve_device-get header adu store device unit_id h found =
    let device' = (process_pdu device (drop 7 adu)).1 in
    let same : device'.unit_id ≡ header.unit_id =
      process_pdu-unit_id device (drop 7 adu) ∙ (get-eq-some store header.unit_id device found).0 in
    ground (arith, get-update store header.unit_id device' unit_id same)

-- A frame touches no device but the one at its unit id.
pub get-process_frame :
    (header : MbapHeader) (adu : Bytes) (store : DataStore) (unit_id : ℕ)
    → unit_id ≢ header.unit_id
    → get (process_frame header adu store).1 unit_id ≡ get store unit_id
unfolding process_frame
get-process_frame header adu store unit_id h = elim (Option-cases (get store header.unit_id)) [
  | inl absent ↦ rw absent (ground arith)
  | inr (device, found) ↦ rw found (serve_device-get header adu store device unit_id h found)
]

-- The device at the unit id of a frame: changed as the dispatcher changes it, unless the frame is not
-- Modbus.
pub process_frame-device :
    (header : MbapHeader) (adu : Bytes) (store : DataStore) (device : Device)
    → get store header.unit_id ≡ some device
    → get (process_frame header adu store).1 header.unit_id
      ≡ some (if header.protocol_id == 0 then (process_pdu device (drop 7 adu)).1 else device)
unfolding process_frame
process_frame-device header adu store device found =
    let (unit, held) = get-eq-some store header.unit_id device found in
    let same : (process_pdu device (drop 7 adu)).1.unit_id ≡ header.unit_id =
      process_pdu-unit_id device (drop 7 adu) ∙ unit in
    rw found (
      ground (
        arith,
        found,
        held,
        get-update store header.unit_id (process_pdu device (drop 7 adu)).1 header.unit_id same,
      ))
