-- ===== src/Server/Log/Logged.antt =====
-- The fields that modbus_sim/server.py logs of a request, against the request.
use modbus_sim.Prelude.{
  ℕ, true, false, drop, Bytes, ◌≡◌, refl, Option, none, some, length, arith, if◌then◌else◌,
  Option-cases, inl, inr,
}
use modbus_sim.Result.{ModbusError, ok}
use modbus_sim.Frame.Request.{
  Request, read_coils_request, read_discrete_inputs_request, read_holding_registers_request,
  read_input_registers_request, write_single_coil_request, write_single_register_request,
  write_multiple_coils_request, write_multiple_registers_request,
}
use modbus_sim.Frame.Request.Valid.{IsEncodable, request_bytes}
use modbus_sim.Frame.Response.{is_exception, set_mask}
use modbus_sim.Frame.Response.Valid.{response_bytes}
use modbus_sim.Frame.Mbap.{MbapHeader}
use modbus_sim.Datastore.Device.{Device, IsValid}
use modbus_sim.Datastore.Store.{DataStore, get}
use modbus_sim.Dispatcher.{exception_code}
use modbus_sim.Dispatcher.Verdict.{verdict, outcome, address_of, quantity_of}
use modbus_sim.Server.Log.{
  Peer, fmt_peer, Amount, qty, val, Fields, fields_of, has_quantity, LogLine, req_ok, req_exception,
  is_refusal, log_request, process_frame_log,
}
use modbus_sim.Client.Answer.{function_code, response_to, process_pdu-request_bytes}

-- The number that is logged after the address, under its label.
abbrev pub amount_of : Request → Amount
amount_of (write_single_coil_request a v) = val (if v then 0xff00 else 0)
amount_of (write_single_register_request a v) = val v
amount_of r = qty (quantity_of r)

-- What is logged of a request.
abbrev pub fields_for : Peer → MbapHeader → Request → Fields
fields_for peer header r = record {
  peer = fmt_peer peer;
  unit_id = header.unit_id;
  fc = function_code r;
  addr = some (address_of r);
  amount = some (amount_of r);
}

fields_of-request_bytes :
    (peer : Peer) (header : MbapHeader) (r : Request)
    → IsEncodable r
    → fields_of peer header (request_bytes r) ≡ fields_for peer header r
unfolding fields_of has_quantity
fields_of-request_bytes peer header (write_single_coil_request a true) h = ground arith
fields_of-request_bytes peer header (write_single_coil_request a false) h = ground arith
fields_of-request_bytes peer header _ h = ground arith

-- The line for a verdict on a request: the refusal's code, or the length of the response.
abbrev pub line_for : Option ModbusError → Fields → (bytes : ℕ) → LogLine
line_for none fields bytes = req_ok fields bytes
line_for (some m) fields bytes = req_exception fields (exception_code m)

response-is_refusal :
    (d : Device) (r : Request)
    → verdict d r ≡ none
    → is_refusal (response_bytes (outcome d r).0) ≡ false
unfolding is_exception
response-is_refusal d (read_coils_request a c) h = refl
response-is_refusal d (read_discrete_inputs_request a c) h = refl
response-is_refusal d (read_holding_registers_request a c) h = refl
response-is_refusal d (read_input_registers_request a c) h = refl
response-is_refusal d (write_single_coil_request a v) h = refl
response-is_refusal d (write_single_register_request a v) h = refl
response-is_refusal d (write_multiple_coils_request a vs) h = refl
response-is_refusal d (write_multiple_registers_request a vs) h = refl

refusal-is_exception : (r : Request) → is_exception (set_mask (function_code r)) ≡ true
unfolding is_exception set_mask
refusal-is_exception (read_coils_request a c) = refl
refusal-is_exception (read_discrete_inputs_request a c) = refl
refusal-is_exception (read_holding_registers_request a c) = refl
refusal-is_exception (read_input_registers_request a c) = refl
refusal-is_exception (write_single_coil_request a v) = refl
refusal-is_exception (write_single_register_request a v) = refl
refusal-is_exception (write_multiple_coils_request a vs) = refl
refusal-is_exception (write_multiple_registers_request a vs) = refl

log_request-response_to :
    (peer : Peer) (header : MbapHeader) (d : Device) (r : Request)
    → IsEncodable r
    → log_request peer header (request_bytes r) (response_bytes (response_to d r))
      ≡ ok (
          line_for
            (verdict d r)
            (fields_for peer header r)
            (length (response_bytes (response_to d r))))
unfolding log_request
log_request-response_to peer header d r h = elim (Option-cases (verdict d r)) [
  | inl allowed ↦
      rw (allowed, fields_of-request_bytes peer header r h, response-is_refusal d r allowed) refl
  | inr (m, refusal) ↦
      rw (refusal, fields_of-request_bytes peer header r h, refusal-is_exception r) refl
]

-- What `_process_frame` logs of a Modbus frame that holds an encoded request for a valid device of the store: the
-- peer, the unit, the function code, the address and the amount of that request, and the code of the
-- exception response if the request is refused, or else the length of the response.
pub process_frame_log-request :
    (peer : Peer) (header : MbapHeader) (adu : Bytes) (store : DataStore) (d : Device) (r : Request)
    → header.protocol_id ≡ 0
    → get store header.unit_id ≡ some d
    → IsValid d
    → IsEncodable r
    → drop 7 adu ≡ request_bytes r
    → process_frame_log peer header adu store
      ≡ ok (
          line_for
            (verdict d r)
            (fields_for peer header r)
            (length (response_bytes (response_to d r))))
unfolding process_frame_log
process_frame_log-request peer header adu store d r modbus found valid h pdu =
    rw (modbus, found, pdu, process_pdu-request_bytes d r valid h)
      (log_request-response_to peer header d r h)
