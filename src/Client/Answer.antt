-- ===== src/Client/Answer.antt =====
-- The response that a request gets from a valid device, as a response that the client decodes.
use modbus_sim.Prelude.{
  ℕ, ◌<◌, ◌≤◌, ◌≡◌, refl, sym, ap, ◌∙◌, Option, none, some, arith, ◌+◌, length, map, drop,
  length-map, length-take, length-drop, Option-cases, inl, inr,
}
use modbus_sim.Result.{ModbusError, ok}
use modbus_sim.Frame.Request.{
  Request, read_coils_request, read_discrete_inputs_request, read_holding_registers_request,
  read_input_registers_request, write_single_coil_request, write_single_register_request,
  write_multiple_coils_request, write_multiple_registers_request,
}
use modbus_sim.Frame.Request.Valid.{IsEncodable, request_bytes, request_bytes-IsBytes}
use modbus_sim.Frame.Request.RoundTrip.{decode-request_bytes}
use modbus_sim.Frame.Response.{Response, exception_response}
use modbus_sim.Frame.Response.Valid as Response
use modbus_sim.Frame.Response.RoundTrip.{IsRecoverable}
use modbus_sim.Datastore.Value.{to_bool}
use modbus_sim.Datastore.Block.{MemoryBlock}
use modbus_sim.Datastore.Device.{Device, IsValid}
use modbus_sim.Dispatcher.{handle_request, process_pdu, exception_code}
use modbus_sim.Dispatcher.Verdict.{verdict, outcome, slots, handle_request-ruling}
use modbus_sim.Dispatcher.Outcome.{outcome-Fits}
use modbus_sim.Dispatcher.Reply.{reply, answer, answer_ruled, process_pdu-reply, exception_code-lt}

-- The function code of a request.
abbrev pub function_code : Request → ℕ
function_code (read_coils_request a c) = 1
function_code (read_discrete_inputs_request a c) = 2
function_code (read_holding_registers_request a c) = 3
function_code (read_input_registers_request a c) = 4
function_code (write_single_coil_request a v) = 5
function_code (write_single_register_request a v) = 6
function_code (write_multiple_coils_request a vs) = 15
function_code (write_multiple_registers_request a vs) = 16

reply-request_bytes :
    (d : Device) (r : Request)
    → IsEncodable r
    → reply d (request_bytes r) ≡ answer d (function_code r) r
reply-request_bytes d (read_coils_request a c) h =
    rw (decode-request_bytes (read_coils_request a c) h) refl
reply-request_bytes d (read_discrete_inputs_request a c) h =
    rw (decode-request_bytes (read_discrete_inputs_request a c) h) refl
reply-request_bytes d (read_holding_registers_request a c) h =
    rw (decode-request_bytes (read_holding_registers_request a c) h) refl
reply-request_bytes d (read_input_registers_request a c) h =
    rw (decode-request_bytes (read_input_registers_request a c) h) refl
reply-request_bytes d (write_single_coil_request a v) h =
    rw (decode-request_bytes (write_single_coil_request a v) h) refl
reply-request_bytes d (write_single_register_request a v) h =
    rw (decode-request_bytes (write_single_register_request a v) h) refl
reply-request_bytes d (write_multiple_coils_request a vs) h =
    rw (decode-request_bytes (write_multiple_coils_request a vs) h) refl
reply-request_bytes d (write_multiple_registers_request a vs) h =
    rw (decode-request_bytes (write_multiple_registers_request a vs) h) refl

-- The response that a verdict stands for, and the device after it.
abbrev pub ruled_response : ℕ → Option ModbusError → Response → Response
ruled_response fc none response = response
ruled_response fc (some m) response = exception_response fc (exception_code m)

abbrev pub ruled_device : Device → Option ModbusError → Device → Device
ruled_device d none d' = d'
ruled_device d (some m) d' = d

abbrev pub response_to : Device → Request → Response
response_to d r = ruled_response (function_code r) (verdict d r) (outcome d r).0

abbrev pub device_after : Device → Request → Device
device_after d r = ruled_device d (verdict d r) (outcome d r).1

-- The count that the client gives to the decoder of the response.
abbrev pub IsCountOf : Request → Option ℕ → Type 0
IsCountOf (read_coils_request a c) bit_count = bit_count ≡ some c
IsCountOf (read_discrete_inputs_request a c) bit_count = bit_count ≡ some c
IsCountOf _ bit_count = Unit

answer_ruled-response :
    (d : Device) (fc : ℕ) (o : Response × Device) (v : Option ModbusError)
    → answer_ruled d fc o v
      ≡ (ok (Response.response_bytes (ruled_response fc v o.0)), ruled_device d v o.1)
answer_ruled-response d fc o none = refl
answer_ruled-response d fc o (some m) = refl

pub process_pdu-request_bytes :
    (d : Device) (r : Request)
    → IsValid d
    → IsEncodable r
    → process_pdu d (request_bytes r)
      ≡ (ok (Response.response_bytes (response_to d r)), device_after d r)
process_pdu-request_bytes d r v h =
    process_pdu-reply d (request_bytes r) v (request_bytes-IsBytes r h)
    ∙ reply-request_bytes d r h
    ∙ answer_ruled-response d (function_code r) (outcome d r) (verdict d r)

pub function_code-lt : (r : Request) → function_code r < 128
function_code-lt r = ground arith

pub response_to-IsEncodable :
    (d : Device) (r : Request) → IsValid d → IsEncodable r → Response.IsEncodable (response_to d r)
response_to-IsEncodable d r v h = elim (Option-cases (verdict d r)) [
  | inl allowed ↦ rw allowed (outcome-Fits d r v h allowed).encodable
  | inr (m, refusal) ↦ rw refusal (omega (arith, function_code-lt r), exception_code-lt m)
]

length-slots :
    (b : MemoryBlock) (a c : ℕ)
    → length b.values ≡ b.size
    → a + c ≤ b.size
    → length (map to_bool (slots b a c)) ≡ c
length-slots b a c full h = omega (
  arith,
  length-map (slots b a c) to_bool,
  length-take c (drop a b.values),
  length-drop a b.values,
)

outcome-IsRecoverable :
    (d : Device) (r : Request) (bit_count : Option ℕ)
    → IsValid d
    → IsCountOf r bit_count
    → verdict d r ≡ none
    → IsRecoverable (outcome d r).0 bit_count
unfolding verdict
outcome-IsRecoverable d (read_coils_request a c) bit_count v h allowed =
    h ∙ sym (ap some (length-slots d.coils a c v.coils.full (ground arith)))
outcome-IsRecoverable d (read_discrete_inputs_request a c) bit_count v h allowed =
    h ∙ sym (ap some (length-slots d.discrete_inputs a c v.discrete_inputs.full (ground arith)))
outcome-IsRecoverable d (read_holding_registers_request a c) bit_count v h allowed = tt
outcome-IsRecoverable d (read_input_registers_request a c) bit_count v h allowed = tt
outcome-IsRecoverable d (write_single_coil_request a x) bit_count v h allowed = tt
outcome-IsRecoverable d (write_single_register_request a x) bit_count v h allowed = tt
outcome-IsRecoverable d (write_multiple_coils_request a x) bit_count v h allowed = tt
outcome-IsRecoverable d (write_multiple_registers_request a x) bit_count v h allowed = tt

pub response_to-IsRecoverable :
    (d : Device) (r : Request) (bit_count : Option ℕ)
    → IsValid d
    → IsCountOf r bit_count
    → IsRecoverable (response_to d r) bit_count
response_to-IsRecoverable d r bit_count v h = elim (Option-cases (verdict d r)) [
  | inl allowed ↦ rw allowed (outcome-IsRecoverable d r bit_count v h allowed)
  | inr (m, refusal) ↦ rw refusal (function_code-lt r)
]

-- The response and the device in terms of `handle_request`.
pub response_to-eq-ok :
    (d : Device) (r : Request) {o : Response × Device}
    → handle_request d r ≡ ok o
    → (response_to d r ≡ o.0) × (device_after d r ≡ o.1)
response_to-eq-ok d r h = ground (arith, handle_request-ruling d r)
