-- ===== src/Server/Connection/Run.antt =====
-- A whole connection of `_handle_client`: how it ends, and how a request in it is answered.
use modbus_sim.Prelude.{
  ℕ, ◌<◌, ◌≡◌, refl, ap, ◌∙◌, subst, Option, none, some, List, [], ◌∷◌, ◌++◌, Bytes, IsBytes,
  IsByte, All, All-append, All-prefix, All-suffix, append-nil, append_assoc, ◌⊎◌,
}
use modbus_sim.Result.{Exception, Result, ok, err, protocol_error}
use modbus_sim.Frame.Mbap.{build_adu}
use modbus_sim.Frame.Mbap.RoundTrip.{
  header_bytes, header_bytes-IsBytes, decode_mbap-IsEncodable, build_adu-eq-ok,
}
use modbus_sim.Datastore.Device.{Device, IsValid}
use modbus_sim.Datastore.Store.{DataStore, get, update}
use modbus_sim.Dispatcher.{process_pdu}
use modbus_sim.Server.Framer.{Item, feed}
use modbus_sim.Server.Framer.Loop.{IsFrame, Ending, wire, feed-IsRun}
use modbus_sim.Server.Framer.Chunks.{stream}
use modbus_sim.Server.Framer.Wire.{Message, IsFramable, send_all, item_for, feed-send_all}
use modbus_sim.Server.Connection.{
  process_frame, Session, then_serve, process_frames, handle_chunk, handle_client,
}
use modbus_sim.Server.Connection.Stream.{handle_client-feed}
use modbus_sim.Server.Connection.Frame.{
  AreValid, process_frame_answered, IsSettled, process_frame-IsSettled, answer_adu,
}

-- Frames whose bytes are bytes.
abbrev pub AreBytes : List Item → Type 0
AreBytes = All (λ item. IsBytes item.1)

pub AreBytes-wire :
    (items : List Item) (rest : Bytes) → IsBytes (wire items ++ rest) → AreBytes items
AreBytes-wire [] rest h = tt
AreBytes-wire (item ∷ items) rest h =
    let whole = subst IsBytes (append_assoc item.1 (wire items) rest) h in
    (
      All-prefix IsByte item.1 (wire items ++ rest) whole,
      AreBytes-wire items rest (All-suffix IsByte item.1 (wire items ++ rest) whole),
    )

-- A session that did not raise and left every device valid.
pub record IsQuiet (session : Session) : Type 0 where
  pub raised : session.raised ≡ none
  pub store : AreValid session.store

serve-IsQuiet :
    (o : Result (Option Bytes) × DataStore) (later : DataStore → Session)
    → IsSettled o
    → ((store : DataStore) → AreValid store → IsQuiet (later store))
    → IsQuiet (then_serve o later)
serve-IsQuiet (ok none, store) later s h = h store s.store
serve-IsQuiet (ok (some adu), store) later s h =
    let next = h store s.store in record { raised = next.raised; store = next.store }
serve-IsQuiet (err e, store) later s h = absurd (cc s.result)

pub process_frames-IsQuiet :
    (items : List Item) (store : DataStore)
    → All IsFrame items
    → AreBytes items
    → AreValid store
    → IsQuiet (process_frames items store)
unfolding process_frames
process_frames-IsQuiet [] store f b v = record { raised = refl; store = v }
process_frames-IsQuiet ((header, adu) ∷ items) store f b v =
    serve-IsQuiet (process_frame header adu store) (process_frames items)
      (process_frame-IsSettled header adu store v (decode_mbap-IsEncodable adu b.0 f.0.header) b.0)
      (λ next valid. process_frames-IsQuiet items next f.1 b.1 valid)

-- How a connection may end: closed by the peer, or by a length field that is out of range.
abbrev pub IsEnd : Option Exception → Type 0
IsEnd none = Unit
IsEnd (some e) = (n : ℕ) × (e ≡ protocol_error n) × ((n < 2) ⊎ (260 < n))

pub record IsSafe (session : Session) : Type 0 where
  pub raised : IsEnd session.raised
  pub store : AreValid session.store

pub Ending-IsEnd :
    (buffer : Bytes) (raised : Option Exception) → Ending buffer raised → IsEnd raised
Ending-IsEnd buffer none e = tt
Ending-IsEnd buffer (some x) (n, same, bad) = (n, same, bad.outside)

handle_chunk-IsSafe :
    (bytes : Bytes) (store : DataStore)
    → IsBytes bytes
    → AreValid store
    → IsSafe (handle_chunk (feed [] bytes) store)
unfolding handle_chunk
handle_chunk-IsSafe bytes store b v =
    let fed = feed [] bytes in
    let run = feed-IsRun [] bytes in
    let items = AreBytes-wire fed.frames fed.buffer (subst IsBytes run.conserved b) in
    let q = process_frames-IsQuiet fed.frames store run.frames items v in
    rw q.raised (record { raised = Ending-IsEnd fed.buffer fed.raised run.ending; store = q.store })

-- Whatever bytes a peer sends, a connection on a store of valid devices ends only with the peer or with a
-- `ProtocolError` for a length field out of range, and leaves every device valid.
pub handle_client-IsSafe :
    (chunks : List Bytes) (store : DataStore)
    → IsBytes (stream chunks)
    → AreValid store
    → IsSafe (handle_client [] chunks store)
handle_client-IsSafe chunks store b v =
    rw handle_client-feed (handle_chunk-IsSafe (stream chunks) store b v)

-- A request for a unit of the store.
pub record IsRequest (m : Message) (store : DataStore) (device : Device) : Type 0 where
  pub framable : IsFramable m
  pub found : get store m.unit_id ≡ some device
  pub valid : IsValid device
  pub bytes : IsBytes m.pdu

-- The session that answers one request.
abbrev pub answered : Message → Device → Bytes → DataStore → Session
answered m device pdu store = record {
  written = answer_adu (item_for m).0 pdu ∷ [];
  store = update store m.unit_id (process_pdu device m.pdu).1;
  raised = none;
}

serve_request :
    (m : Message) (store : DataStore) (device : Device) {adu : Bytes}
    → IsRequest m store device
    → build_adu m.transaction_id m.unit_id m.pdu ≡ ok adu
    → (pdu : Bytes) × ((process_pdu device m.pdu).0 ≡ ok pdu)
      × (process_frames (item_for m ∷ []) store ≡ answered m device pdu store)
unfolding process_frames
serve_request m store device r built =
    let (fits, same) = build_adu-eq-ok m.transaction_id m.unit_id m.pdu built in
    let (pdu, sent, served) =
      process_frame_answered (item_for m).0 (item_for m).1 store device (record {
        fits = fits;
        modbus = refl;
        found = r.found;
        valid = r.valid;
        bytes =
            All-append IsByte (header_bytes (item_for m).0) m.pdu
              (header_bytes-IsBytes (item_for m).0 fits) r.bytes;
      }) in
    (pdu, sent, rw served)

send_one :
    (m : Message) {adu : Bytes}
    → build_adu m.transaction_id m.unit_id m.pdu ≡ ok adu
    → send_all (m ∷ []) ≡ ok adu
unfolding send_all
send_one m {adu} built = rw built (ap ok (append-nil adu))

-- The turn of the loop that reads the ADU of one request.
pub handle_request_chunk :
    (m : Message) (store : DataStore) (device : Device) {adu : Bytes}
    → IsRequest m store device
    → build_adu m.transaction_id m.unit_id m.pdu ≡ ok adu
    → (pdu : Bytes) × ((process_pdu device m.pdu).0 ≡ ok pdu)
      × (feed [] adu ≡ record { frames = item_for m ∷ []; buffer = []; raised = none })
      × (handle_chunk (record { frames = item_for m ∷ []; buffer = []; raised = none }) store
          ≡ answered m device pdu store)
handle_request_chunk m store device r built =
    let (pdu, sent, served) = serve_request m store device r built in
    (
      pdu,
      sent,
      feed-send_all (m ∷ []) (r.framable, tt) (send_one m built),
      unfold handle_chunk in rw served,
    )

-- The ADU of one request to a valid device of the store, in whatever pieces it arrives, is answered by one ADU:
-- the dispatcher's PDU under the transaction id and unit of the request; the device is changed as the
-- dispatcher changes it.
pub handle_client_request :
    (m : Message) (store : DataStore) (device : Device) (chunks : List Bytes) {adu : Bytes}
    → IsRequest m store device
    → build_adu m.transaction_id m.unit_id m.pdu ≡ ok adu
    → stream chunks ≡ adu
    → (pdu : Bytes) × ((process_pdu device m.pdu).0 ≡ ok pdu)
      × (handle_client [] chunks store ≡ answered m device pdu store)
handle_client_request m store device chunks r built whole =
    let (pdu, sent, fed, served) = handle_request_chunk m store device r built in
    (pdu, sent, handle_client-feed chunks store ∙ rw (whole, fed) served)
