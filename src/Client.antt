-- ===== src/Client.antt =====
-- modbus_sim/client.py: `ModbusClient`. What a peer sends back is a function of its state and of the bytes
-- written; timeouts are left out. The bytes that came in and are not read yet are kept in `inbox`.
pub mod Receive
pub mod Answer
pub mod Served
pub mod Session
pub mod Message
use modbus_sim.Prelude.{
  ℕ, ◌+◌, ◌-◌, Bool, true, false, not, Option, none, some, List, ◌++◌, [], ◌==◌, ltb, if◌then◌else◌,
  length, take, drop, Bytes,
}
use modbus_sim.Result.{
  Result, ok, err, value_error, runtime_error, os_error, attribute_error, incomplete_read,
  modbus_exception, ◌>>=◌,
}
use modbus_sim.Frame.Constants.{mbap_header_len}
use modbus_sim.Frame.Mbap.{MbapHeader, decode_mbap, build_adu}
use modbus_sim.Frame.Request.{
  Request, read_coils_request, read_discrete_inputs_request, read_holding_registers_request,
  read_input_registers_request, write_single_coil_request, write_single_register_request,
  write_multiple_coils_request, write_multiple_registers_request, encode_request_pdu,
}
use modbus_sim.Frame.Response.{
  Response, read_coils_response, read_discrete_inputs_response, read_holding_registers_response,
  read_input_registers_response, exception_response, decode_response_pdu,
}

-- `tid` is the next transaction id.
pub record Client : Type 0 where
  pub unit_id : ℕ
  pub tid : ℕ
  pub connected : Bool
  pub inbox : Bytes

-- `__init__`
abbrev pub make_client : ℕ → Client
make_client unit_id = record { unit_id = unit_id; tid = 1; connected = false; inbox = [] }

-- `connect`, where it succeeds: a new reader has nothing to read, and the transaction ids go on.
abbrev pub connect : Client → Client
connect client = record client { connected = true; inbox = [] }

abbrev pub close : Client → Client
close client = record client { connected = false; inbox = [] }

-- `itertools.cycle(range(1, 0x10000))`
abbrev pub next_tid : ℕ → ℕ
next_tid tid = if tid == 0xFFFF then 1 else tid + 1

-- `readexactly`, and the bytes left. A stream that ends too early is emptied.
abbrev pub read_exactly : Bytes → ℕ → Result Bytes × Bytes
read_exactly inbox n =
    if ltb (length inbox) n then (err incomplete_read, []) else (ok (take n inbox), drop n inbox)

-- An exception response is raised.
abbrev pub raise_exception : Response → Result Response
raise_exception (exception_response fc ec) = err (modbus_exception fc ec)
raise_exception response = ok response

-- The part of `_transact` after the PDU was read.
abbrev pub on_pdu : Option ℕ → Result Bytes × Bytes → Result Response × Bytes
on_pdu bit_count (read, inbox) =
    ((do pdu ← read; response ← decode_response_pdu pdu bit_count; raise_exception response), inbox)

-- After the header was decoded. A length of 0 asks `readexactly` for -1 bytes.
abbrev pub on_header : ℕ → Option ℕ → Bytes → Result MbapHeader → Result Response × Bytes
on_header tid bit_count inbox (err e) = (err e, inbox)
on_header tid bit_count inbox (ok header) =
    if not (header.transaction_id == tid)
    then (err os_error, inbox)
    else if header.length == 0
    then (err value_error, inbox)
    else on_pdu bit_count (read_exactly inbox (header.length - 1))

abbrev pub on_head : ℕ → Option ℕ → Result Bytes × Bytes → Result Response × Bytes
on_head tid bit_count (err e, inbox) = (err e, inbox)
on_head tid bit_count (ok head, inbox) = on_header tid bit_count inbox (decode_mbap head)

-- The second half of `_transact`: the response to the transaction `tid`, and the bytes left.
unfoldable pub receive : ℕ → Option ℕ → Bytes → Result Response × Bytes
receive tid bit_count inbox = on_head tid bit_count (read_exactly inbox mbap_header_len)

-- The ADU of a request.
unfoldable pub request_adu : ℕ → ℕ → Request → Result Bytes
request_adu tid unit_id request = do pdu ← encode_request_pdu request; build_adu tid unit_id pdu

-- `bits` and `registers` of a response that has them.
abbrev pub bits_of : Response → Result (List Bool)
bits_of (read_coils_response bits) = ok bits
bits_of (read_discrete_inputs_response bits) = ok bits
bits_of _ = err attribute_error

abbrev pub registers_of : Response → Result (List ℕ)
registers_of (read_holding_registers_response registers) = ok registers
registers_of (read_input_registers_response registers) = ok registers
registers_of _ = err attribute_error

-- The caller's view of a response, with the states left.
abbrev pub seen {ℓ κ} :
    {A : Type ℓ} {S : Type κ} → (Response → Result A) → Result Response × S → Result A × S
seen view (result, state) = (result >>= view, state)

-- A peer's state, and what it sends back for the bytes written.
module _ {ℓ} {S : Type ℓ} (peer : S → Bytes → Bytes × S) where
  -- `_transact` once the ADU was built; the transaction id is taken even where that failed.
  exchange : Client → S → ℕ → Option ℕ → Result Bytes → Result Response × (Client × S)
  exchange client state tid bit_count (err e) = (err e, (client, state))
  exchange client state tid bit_count (ok adu) =
      let (reply, state') = peer state adu in
      let (result, inbox) = receive tid bit_count (client.inbox ++ reply) in
      (result, (record client { inbox = inbox }, state'))

  unfoldable pub transact : Client → S → Request → Option ℕ → Result Response × (Client × S)
  unfolding exchange
  transact client state request bit_count =
      if not client.connected
      then (err runtime_error, (client, state))
      else exchange (record client { tid = next_tid client.tid }) state client.tid bit_count
          (request_adu client.tid client.unit_id request)

  unfoldable pub read_coils : Client → S → ℕ → ℕ → Result (List Bool) × (Client × S)
  read_coils client state address count =
      seen bits_of (transact client state (read_coils_request address count) (some count))

  unfoldable pub read_discrete_inputs : Client → S → ℕ → ℕ → Result (List Bool) × (Client × S)
  read_discrete_inputs client state address count =
      seen bits_of (transact client state (read_discrete_inputs_request address count) (some count))

  unfoldable pub read_holding_registers : Client → S → ℕ → ℕ → Result (List ℕ) × (Client × S)
  read_holding_registers client state address count =
      seen registers_of (transact client state (read_holding_registers_request address count) none)

  unfoldable pub read_input_registers : Client → S → ℕ → ℕ → Result (List ℕ) × (Client × S)
  read_input_registers client state address count =
      seen registers_of (transact client state (read_input_registers_request address count) none)

  -- The value of a write is `None`.
  abbrev pub done : Response → Result (Unit {0})
  done response = ok tt

  unfoldable pub write_coil : Client → S → ℕ → Bool → Result (Unit {0}) × (Client × S)
  write_coil client state address value =
      seen done (transact client state (write_single_coil_request address value) none)

  unfoldable pub write_register : Client → S → ℕ → ℕ → Result (Unit {0}) × (Client × S)
  write_register client state address value =
      seen done (transact client state (write_single_register_request address value) none)

  unfoldable pub write_coils : Client → S → ℕ → List Bool → Result (Unit {0}) × (Client × S)
  write_coils client state address values =
      seen done (transact client state (write_multiple_coils_request address values) none)

  unfoldable pub write_registers : Client → S → ℕ → List ℕ → Result (Unit {0}) × (Client × S)
  write_registers client state address values =
      seen done (transact client state (write_multiple_registers_request address values) none)
