-- ===== src/Server/Connection/Link.antt =====
-- A connection of modbus_sim/server.py as its client meets it: what one turn of the `while` of `_handle_client`
-- sends back for the bytes that it reads.
use modbus_sim.Prelude.{◌≡◌, ap, Option, none, some, [], append-nil, Bytes}
use modbus_sim.Result.{Exception, ok}
use modbus_sim.Frame.Mbap.{build_adu}
use modbus_sim.Datastore.Device.{Device}
use modbus_sim.Datastore.Store.{DataStore, update}
use modbus_sim.Dispatcher.{process_pdu}
use modbus_sim.Server.Framer.{feed}
use modbus_sim.Server.Framer.Chunks.{stream}
use modbus_sim.Server.Framer.Wire.{Message, item_for}
use modbus_sim.Server.Connection.{Session, handle_chunk}
use modbus_sim.Server.Connection.Frame.{answer_adu}
use modbus_sim.Server.Connection.Run.{IsRequest, handle_request_chunk}

-- The framer's buffer, the store, and the exception that closed the connection, if one did.
pub record Link : Type 0 where
  pub buffer : Bytes
  pub store : DataStore
  pub raised : Option Exception

abbrev pub open_link : DataStore → Link
open_link store = record { buffer = []; store = store; raised = none }

abbrev pub linked : Bytes → Session → Bytes × Link
linked buffer session = (
  stream session.written,
  record { buffer = buffer; store = session.store; raised = session.raised },
)

-- A connection that was closed sends nothing.
abbrev pub serve_on : Option Exception → Link → Bytes → Bytes × Link
serve_on (some e) link bytes = ([], link)
serve_on none link bytes =
    let fed = feed link.buffer bytes in linked fed.buffer (handle_chunk fed link.store)

unfoldable pub serve : Link → Bytes → Bytes × Link
serve link bytes = serve_on link.raised link bytes

-- The ADU of one request is answered, and the connection stays open.
pub serve-request :
    (m : Message) (store : DataStore) (device : Device) {adu : Bytes}
    → IsRequest m store device
    → build_adu m.transaction_id m.unit_id m.pdu ≡ ok adu
    → (pdu : Bytes) × ((process_pdu device m.pdu).0 ≡ ok pdu)
      × (serve (open_link store) adu ≡ (
        answer_adu (item_for m).0 pdu,
        open_link (update store m.unit_id (process_pdu device m.pdu).1),
      ))
unfolding serve
serve-request m store device r built =
    let (pdu, sent, fed, served) = handle_request_chunk m store device r built in
    (
      pdu,
      sent,
      rw (fed, served)
          (ap (λ b. (b, open_link (update store m.unit_id (process_pdu device m.pdu).1)))
            (append-nil (answer_adu (item_for m).0 pdu))),
    )
