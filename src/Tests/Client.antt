-- ===== src/Tests/Client.antt =====
-- A client over an open connection, and the theorems at a small client.
use modbus_sim.Prelude.{[], ◌∷◌, ◌≡◌, refl, map, none, some, Bytes, arith}
use modbus_sim.Result.{ok, err, modbus_exception, os_error, runtime_error}
use modbus_sim.Frame.Mbap.{build_adu, decode_mbap}
use modbus_sim.Frame.Request.{
  read_coils_request, read_holding_registers_request, write_multiple_registers_request,
  decode_request_pdu, encode_request_pdu,
}
use modbus_sim.Frame.Response.{
  read_holding_registers_response, encode_response_pdu, decode_response_pdu, is_exception,
  clear_mask,
}
use modbus_sim.Frame.Registers.{pack_registers, unpack_registers}
use modbus_sim.Datastore.Block.{read}
use modbus_sim.Datastore.Store.{get, update}
use modbus_sim.Dispatcher.{process_pdu, handle_request}
use modbus_sim.Server.Framer.{feed, next_frame}
use modbus_sim.Server.Connection.{process_frame, handle_chunk}
use modbus_sim.Server.Connection.Link.{open_link, serve}
use modbus_sim.Client.{
  Client, make_client, connect, close, receive, raise_exception, transact, request_adu,
  read_holding_registers,
}
use modbus_sim.Client.Answer.{response_to, device_after}
use modbus_sim.Client.Receive.{IsReceived, receive-eq-ok}
use modbus_sim.Client.Served.{IsReady, transact-serve}
use modbus_sim.Client.Session.{transact_all, respond_all, transact_all-respond_all}
use modbus_sim.Tests.Data.{sensor, plant}

-- The last transaction id before the cycle starts again.
abbrev client : Client
client = record (connect (make_client 1)) { tid = 65535 }

-- A closed client raises `RuntimeError`.
closed :
    transact serve (close client) (open_link plant) (read_coils_request 0 1) (some 1)
    ≡ (err runtime_error, (close client, open_link plant))
unfolding transact
closed = refl

abbrev client_after : Client
client_after = record client { tid = 1 }

client-IsReady : IsReady client plant sensor
unfolding get
client-IsReady = record {
  connected = refl;
  inbox = refl;
  tid = omega arith;
  unit = omega arith;
  found = refl;
  valid = omega arith;
}

read_three : (read_holding_registers serve client (open_link plant) 0 3).0 ≡ ok (250 ∷ 0 ∷ 7 ∷ [])
unfolding read_holding_registers transact request_adu encode_request_pdu build_adu serve feed
    next_frame decode_mbap handle_chunk process_frame get update process_pdu decode_request_pdu
    handle_request read encode_response_pdu pack_registers receive decode_response_pdu is_exception
    unpack_registers
read_three = refl

-- A response under another transaction id is not accepted.
other_tid : (receive 2 none (0 ∷ 1 ∷ 0 ∷ 0 ∷ 0 ∷ 3 ∷ 1 ∷ 0x83 ∷ 2 ∷ [])).0 ≡ err os_error
unfolding receive decode_mbap
other_tid = refl

refused :
    (receive 1 none (0 ∷ 1 ∷ 0 ∷ 0 ∷ 0 ∷ 3 ∷ 1 ∷ 0x83 ∷ 2 ∷ [])).0 ≡ err (modbus_exception 3 2)
unfolding receive decode_mbap decode_response_pdu is_exception clear_mask
refused = refl

encode_read : encode_request_pdu (read_holding_registers_request 0 3) ≡ ok (3 ∷ 0 ∷ 0 ∷ 0 ∷ 3 ∷ [])
unfolding encode_request_pdu
encode_read = refl

transact-serve_example :
    transact serve client (open_link plant) (read_holding_registers_request 0 3) none ≡ (
      raise_exception (response_to sensor (read_holding_registers_request 0 3)),
      (
        client_after,
        open_link (update plant 1 (device_after sensor (read_holding_registers_request 0 3))),
      ),
    )
transact-serve_example =
    transact-serve client plant sensor (read_holding_registers_request 0 3) none client-IsReady
      encode_read (omega arith) tt

transact_all-respond_all_example :
    ((transact_all client
        (open_link plant)
        (write_multiple_registers_request 1 (5 ∷ []) ∷ read_coils_request 9 1 ∷ [])).0
      ≡ map raise_exception
          (respond_all sensor
            (write_multiple_registers_request 1 (5 ∷ []) ∷ read_coils_request 9 1 ∷ [])).0)
    × (get
          (transact_all client
            (open_link plant)
            (write_multiple_registers_request 1 (5 ∷ []) ∷ read_coils_request 9 1 ∷ [])).1.1.store
          1
        ≡ some
            (respond_all sensor
              (write_multiple_registers_request 1 (5 ∷ []) ∷ read_coils_request 9 1 ∷ [])).1)
transact_all-respond_all_example =
    transact_all-respond_all client plant sensor
      (write_multiple_registers_request 1 (5 ∷ []) ∷ read_coils_request 9 1 ∷ []) client-IsReady
      (omega arith)

abbrev inbox : Bytes
inbox = 0 ∷ 9 ∷ 0 ∷ 0 ∷ 0 ∷ 5 ∷ 1 ∷ 3 ∷ 2 ∷ 1 ∷ 0 ∷ 44 ∷ []

receive_nine : receive 9 none inbox ≡ (ok (read_holding_registers_response (256 ∷ [])), 44 ∷ [])
unfolding receive decode_mbap decode_response_pdu is_exception unpack_registers
receive_nine = refl

receive-eq-ok_example :
    IsReceived 9 none inbox (read_holding_registers_response (256 ∷ [])) (44 ∷ [])
receive-eq-ok_example = receive-eq-ok 9 none inbox (44 ∷ []) receive_nine
