-- ===== src/Server/Connection.antt =====
-- `_process_frame` and `_handle_client` of modbus_sim/server.py. A run on a connection is given by the chunks that
-- `reader.read` returns; logging and the socket's own errors are left out. What is written
-- is a list of ADUs, in order.
pub mod Frame
pub mod Run
pub mod Link
pub mod Stream
use modbus_sim.Prelude.{
  ℕ, Option, none, some, List, [], ◌∷◌, ◌++◌, ◌==◌, not, if◌then◌else◌, drop, Bytes,
}
use modbus_sim.Result.{Exception, Result, ok, err, ◌>>=◌}
use modbus_sim.Frame.Constants.{mbap_header_len, protocol_id}
use modbus_sim.Frame.Mbap.{MbapHeader, build_adu}
use modbus_sim.Datastore.Device.{Device}
use modbus_sim.Datastore.Store.{DataStore, get, update}
use modbus_sim.Dispatcher.{process_pdu}
use modbus_sim.Server.Framer.{Item, Fed, feed}

-- The part of `_process_frame` with the device at hand: what is written, and the store afterwards.
serve_device : MbapHeader → Bytes → DataStore → Device → Result (Option Bytes) × DataStore
serve_device header adu store device =
    let pdu = drop mbap_header_len adu in
    let (response_pdu, device') = process_pdu device pdu in
    (
      (do
        response ← response_pdu
        response_adu ← build_adu header.transaction_id header.unit_id response
        ok (some response_adu)),
      update store header.unit_id device',
    )

-- `none` where the frame is dropped.
serve_found : MbapHeader → Bytes → DataStore → Option Device → Result (Option Bytes) × DataStore
serve_found header adu store none = (ok none, store)
serve_found header adu store (some device) = serve_device header adu store device

unfoldable pub process_frame : MbapHeader → Bytes → DataStore → Result (Option Bytes) × DataStore
unfolding serve_found serve_device
process_frame header adu store =
    if not (header.protocol_id == protocol_id)
    then (ok none, store)
    else serve_found header adu store (get store header.unit_id)

-- What a connection came to: the ADUs written, the store, and the exception that ended it, if one did.
pub record Session : Type 0 where
  pub written : List Bytes
  pub store : DataStore
  pub raised : Option Exception

abbrev pub quiet : DataStore → Session
quiet store = record { written = []; store = store; raised = none }

-- What was written before, in front of a session that goes on.
abbrev pub after : List Bytes → Session → Session
after written session = record session { written = written ++ session.written }

-- The effect of one frame, over the session that goes on from the store that it leaves.
abbrev pub then_serve : Result (Option Bytes) × DataStore → (DataStore → Session) → Session
then_serve (ok none, store) later = later store
then_serve (ok (some adu), store) later = after (adu ∷ []) (later store)
then_serve (err e, store) later = record { written = []; store = store; raised = some e }

-- The `for` over the frames of one read.
unfoldable pub process_frames : List Item → DataStore → Session
process_frames [] store = quiet store
process_frames ((header, adu) ∷ items) store =
    then_serve (process_frame header adu store) (process_frames items)

-- What `session` came to, and what follows it unless it was ended.
abbrev pub read_on : Option Exception → Session → (DataStore → Session) → Session
read_on none session later = after session.written (later session.store)
read_on (some e) session later = session

abbrev pub then_read : Session → (DataStore → Session) → Session
then_read session later = read_on session.raised session later

-- What `feed` raised after its last frame, if the frames did not raise first.
abbrev pub raise_on : Option Exception → Session → Option Exception → Session
raise_on none session raised = record session { raised = raised }
raise_on (some e) session raised = session

abbrev pub then_raise : Session → Option Exception → Session
then_raise session raised = raise_on session.raised session raised

-- The body of the `while` for one chunk.
unfoldable pub handle_chunk : Fed → DataStore → Session
unfolding process_frames
handle_chunk fed store = then_raise (process_frames fed.frames store) fed.raised

-- `_handle_client`, from a buffer: the chunks read until the peer closes.
unfoldable pub handle_client : Bytes → List Bytes → DataStore → Session
unfolding handle_chunk
handle_client buffer [] store = quiet store
handle_client buffer (chunk ∷ chunks) store =
    let fed = feed buffer chunk in
    then_read (handle_chunk fed store) (handle_client fed.buffer chunks)
