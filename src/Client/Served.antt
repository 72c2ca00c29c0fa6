-- ===== src/Client/Served.antt =====
-- A client and the server together: what a transaction comes to over an open connection.
use modbus_sim.Prelude.{
  ℕ, ◌<◌, ◌≤◌, ◌≡◌, refl, sym, ap, subst, ◌∙◌, true, Option, some, [], ◌++◌, arith, length, Bytes,
}
use modbus_sim.Result.{ok, ok_injective}
use modbus_sim.Frame.Mbap.{build_adu}
use modbus_sim.Frame.Mbap.RoundTrip.{adu_header, header_bytes, build_adu_lem}
use modbus_sim.Frame.Request.{Request, encode_request_pdu}
use modbus_sim.Frame.Request.Valid.{
  IsEncodable, request_bytes, request_bytes-IsBytes, encode_request_pdu-eq-ok,
}
use modbus_sim.Frame.Response.Valid as Response
use modbus_sim.Frame.Response.RoundTrip.{decode-response_bytes}
use modbus_sim.Datastore.Device.{Device, IsValid}
use modbus_sim.Datastore.Store.{DataStore, get, update}
use modbus_sim.Server.Framer.Wire.{Message}
use modbus_sim.Server.Connection.Link.{open_link, serve, serve-request}
use modbus_sim.Client.{Client, next_tid, raise_exception, request_adu, transact, exchange}
use modbus_sim.Client.Receive.{receive_whole}
use modbus_sim.Client.Answer.{
  response_to, device_after, IsCountOf, process_pdu-request_bytes, response_to-IsEncodable,
  response_to-IsRecoverable,
}

-- A client over an open connection to a store, with nothing left to read, and the device of its unit.
pub record IsReady (client : Client) (store : DataStore) (device : Device) : Type 0 where
  pub connected : client.connected ≡ true
  pub inbox : client.inbox ≡ []
  pub tid : client.tid < 65536
  pub unit : client.unit_id < 256
  pub found : get store client.unit_id ≡ some device
  pub valid : IsValid device

request_bytes-positive : (r : Request) → 1 ≤ length (request_bytes r)
request_bytes-positive r = ground arith

serve_transaction :
    (tid unit_id : ℕ) (store : DataStore) (device : Device) (r : Request) {adu : Bytes}
    → get store unit_id ≡ some device
    → IsValid device
    → IsEncodable r
    → length (request_bytes r) ≤ 259
    → build_adu tid unit_id (request_bytes r) ≡ ok adu
    → serve (open_link store) adu ≡ (
      header_bytes (adu_header tid unit_id (Response.response_bytes (response_to device r)))
          ++ Response.response_bytes (response_to device r),
      open_link (update store unit_id (device_after device r)),
    )
serve_transaction tid unit_id store device r found v h short built =
    let m : Message = record { transaction_id = tid; unit_id = unit_id; pdu = request_bytes r } in
    let answered = process_pdu-request_bytes device r v h in
    let (pdu, sent, served) =
      serve-request m store device
        (record {
          framable = (request_bytes-positive r, short);
          found = found;
          valid = v;
          bytes = request_bytes-IsBytes r h;
        })
        built in
    let same : pdu ≡ Response.response_bytes (response_to device r) =
      ok_injective (sym sent ∙ ap (λ o. o.0) answered) in
    served ∙ rw (same, answered) refl

-- A transaction of a ready client over an open connection, whose request is encoded within the framer's bound
-- and given with its count: the client gets the response of
-- the dispatcher to its request, or raises `ModbusExceptionError` with the codes of the refusal,
-- its next transaction id is taken, and the server's device is as the dispatcher leaves it.
pub transact-serve :
    (client : Client) (store : DataStore) (device : Device) (r : Request) (bit_count : Option ℕ)
    {pdu : Bytes}
    → IsReady client store device
    → encode_request_pdu r ≡ ok pdu
    → length pdu ≤ 259
    → IsCountOf r bit_count
    → transact serve client (open_link store) r bit_count ≡ (
      raise_exception (response_to device r),
      (
        record client { tid = next_tid client.tid },
        open_link (update store client.unit_id (device_after device r)),
      ),
    )
unfolding transact exchange request_adu
transact-serve client store device r bit_count ready encoded short count =
    let (h, same) = encode_request_pdu-eq-ok r encoded in
    let fits : length (request_bytes r) ≤ 259 = subst (λ p. length p ≤ 259) same short in
    let built = build_adu_lem client.tid client.unit_id (request_bytes r) (record {
      transaction_id = ready.tid;
      protocol_id = omega arith;
      length = omega arith;
      unit_id = ready.unit;
    }) in
    let served =
      serve_transaction client.tid client.unit_id store device r ready.found ready.valid h fits
        built in
    let decoded =
      decode-response_bytes (response_to device r) bit_count
        (response_to-IsEncodable device r ready.valid h)
        (response_to-IsRecoverable device r bit_count ready.valid count) in
    let received =
      receive_whole client.tid client.unit_id bit_count
        (Response.response_bytes (response_to device r)) decoded in
    rw (ready.connected, encoded, same, built, served, ready.inbox, received) refl
