-- ===== src/Tests/Serving.antt =====
-- The framer and the connection, and the theorems at a small stream of requests.
use modbus_sim.Prelude.{ℕ, List, [], ◌∷◌, ◌++◌, ◌≡◌, ◌≢◌, refl, none, some, Bytes, arith}
use modbus_sim.Result.{ok, protocol_error}
use modbus_sim.Frame.Mbap.{build_adu, decode_mbap}
use modbus_sim.Frame.Request.{decode_request_pdu}
use modbus_sim.Frame.Response.{encode_response_pdu}
use modbus_sim.Frame.Registers.{pack_registers}
use modbus_sim.Datastore.Block.{read}
use modbus_sim.Datastore.Device.{IsValid}
use modbus_sim.Datastore.Store.{get, update}
use modbus_sim.Dispatcher.{process_pdu, handle_request}
use modbus_sim.Server.Framer.{next_frame, feed}
use modbus_sim.Server.Framer.Loop.{IsRun, feed-IsRun}
use modbus_sim.Server.Framer.Wire.{Message, send_all, item_for, feed-send_all}
use modbus_sim.Server.Connection.{process_frame, handle_client}
use modbus_sim.Server.Connection.Frame.{AreValid, IsServed}
use modbus_sim.Server.Connection.Run.{
  IsSafe, handle_client-IsSafe, IsRequest, answered, handle_client_request,
}
use modbus_sim.Server.Connection.Stream.{handle_client-stream}
use modbus_sim.Tests.Data.{meter, plant}

-- A request for registers 0 and 1 of unit 2.
abbrev request : Message
request = record { transaction_id = 513; unit_id = 2; pdu = 3 ∷ 0 ∷ 0 ∷ 0 ∷ 2 ∷ [] }

abbrev request_adu : Bytes
request_adu = 2 ∷ 1 ∷ 0 ∷ 0 ∷ 0 ∷ 6 ∷ 2 ∷ 3 ∷ 0 ∷ 0 ∷ 0 ∷ 2 ∷ []

request_built : build_adu 513 2 (3 ∷ 0 ∷ 0 ∷ 0 ∷ 2 ∷ []) ≡ ok request_adu
unfolding build_adu
request_built = refl

-- The ADU in three pieces.
abbrev pieces : List Bytes
pieces = (2 ∷ 1 ∷ 0 ∷ 0 ∷ []) ∷ (0 ∷ 6 ∷ 2 ∷ 3 ∷ 0 ∷ []) ∷ (0 ∷ 0 ∷ 2 ∷ []) ∷ []

abbrev response_adu : Bytes
response_adu = 2 ∷ 1 ∷ 0 ∷ 0 ∷ 0 ∷ 7 ∷ 2 ∷ 3 ∷ 4 ∷ 0 ∷ 250 ∷ 0 ∷ 0 ∷ []

serve_pieces : (handle_client [] pieces plant).written ≡ response_adu ∷ []
unfolding handle_client feed next_frame decode_mbap process_frame get update process_pdu
    decode_request_pdu handle_request read encode_response_pdu pack_registers build_adu
serve_pieces = refl

-- A length field of 1 ends the connection, after the frame before it was answered.
serve_bad_length :
    (handle_client [] ((request_adu ++ (0 ∷ 1 ∷ 0 ∷ 0 ∷ 0 ∷ 1 ∷ 2 ∷ [])) ∷ []) plant).raised
    ≡ some (protocol_error 1)
unfolding handle_client feed next_frame decode_mbap process_frame get update process_pdu
    decode_request_pdu handle_request read encode_response_pdu pack_registers build_adu
serve_bad_length = refl

feed-IsRun_example :
    IsRun
      ((0 ∷ 1 ∷ []) ++ (0 ∷ 0 ∷ 0 ∷ 2 ∷ 9 ∷ 7 ∷ 5 ∷ []))
      (feed (0 ∷ 1 ∷ []) (0 ∷ 0 ∷ 0 ∷ 2 ∷ 9 ∷ 7 ∷ 5 ∷ []))
feed-IsRun_example = feed-IsRun (0 ∷ 1 ∷ []) (0 ∷ 0 ∷ 0 ∷ 2 ∷ 9 ∷ 7 ∷ 5 ∷ [])

nothing_raised : (feed [] (request_adu ++ (9 ∷ 9 ∷ []))).raised ≡ none
unfolding feed next_frame decode_mbap
nothing_raised = refl

two_sent : send_all (request ∷ request ∷ []) ≡ ok (request_adu ++ request_adu)
unfolding send_all build_adu
two_sent = refl

feed-send_all_example :
    feed [] (request_adu ++ request_adu)
    ≡ record { frames = item_for request ∷ item_for request ∷ []; buffer = []; raised = none }
feed-send_all_example = feed-send_all (request ∷ request ∷ []) (omega arith) two_sent

plant-AreValid : AreValid plant
plant-AreValid = omega arith

meter-IsValid : IsValid meter
meter-IsValid = omega arith

meter_found : get plant 2 ≡ some meter
unfolding get
meter_found = refl

request-IsServed : IsServed (item_for request).0 request_adu plant meter
request-IsServed = record {
  fits = omega arith;
  modbus = refl;
  found = meter_found;
  valid = meter-IsValid;
  bytes = omega arith;
}

one-ne_two : ◌≢◌ {A = ℕ} 1 2
one-ne_two = omega arith

request-IsRequest : IsRequest request plant meter
request-IsRequest = record {
  framable = omega arith;
  found = meter_found;
  valid = meter-IsValid;
  bytes = omega arith;
}

handle_client_request_example :
    (pdu : Bytes) × ((process_pdu meter (3 ∷ 0 ∷ 0 ∷ 0 ∷ 2 ∷ [])).0 ≡ ok pdu)
    × (handle_client [] pieces plant ≡ answered request meter pdu plant)
handle_client_request_example =
    handle_client_request request plant meter pieces request-IsRequest request_built refl

handle_client-IsSafe_example :
    IsSafe (handle_client [] ((1 ∷ 2 ∷ 3 ∷ []) ∷ (4 ∷ 5 ∷ 6 ∷ 7 ∷ []) ∷ []) plant)
handle_client-IsSafe_example =
    handle_client-IsSafe ((1 ∷ 2 ∷ 3 ∷ []) ∷ (4 ∷ 5 ∷ 6 ∷ 7 ∷ []) ∷ []) plant (omega arith)
      plant-AreValid

handle_client-stream_example :
    handle_client [] pieces plant ≡ handle_client [] (request_adu ∷ []) plant
handle_client-stream_example = handle_client-stream pieces (request_adu ∷ []) plant refl
