-- ===== src/Client/Session.antt =====
-- A client that makes one transaction after the other on one connection.
use modbus_sim.Prelude.{
  ℕ, ◌≤◌, ◌+◌, ◌≡◌, refl, ap, ◌∙◌, ==_refl, Option, none, some, List, [], ◌∷◌, map, arith, length,
  All, Option-cases, inl, inr, IsWord, IsWords,
}
use modbus_sim.Result.{Result, ok}
use modbus_sim.Frame.Registers.RoundTrip.{length-word_bytes}
use modbus_sim.Frame.Request.{
  Request, read_coils_request, read_discrete_inputs_request, read_holding_registers_request,
  write_multiple_registers_request,
}
use modbus_sim.Frame.Request.Valid.{IsEncodable, encode_request_pdu_lem, request_bytes}
use modbus_sim.Frame.Response.{Response}
use modbus_sim.Datastore.Device.{Device, IsValid}
use modbus_sim.Datastore.Store.{DataStore, get, update}
use modbus_sim.Datastore.Store.Lookup.{get-update, get-eq-some}
use modbus_sim.Dispatcher.{handle_request}
use modbus_sim.Dispatcher.Verdict.{verdict, outcome, handle_request-ruling}
use modbus_sim.Dispatcher.Outcome.{outcome-IsValid}
use modbus_sim.Dispatcher.Effect.{read_holding-write_multiple_registers}
use modbus_sim.Server.Connection.Link.{Link, open_link, serve}
use modbus_sim.Client.{
  Client, next_tid, raise_exception, transact, write_registers, read_holding_registers,
}
use modbus_sim.Client.Answer.{response_to, device_after, IsCountOf, response_to-eq-ok}
use modbus_sim.Client.Served.{IsReady, transact-serve}

-- The count that the methods of the client give with a request.
abbrev pub count_of : Request → Option ℕ
count_of (read_coils_request a c) = some c
count_of (read_discrete_inputs_request a c) = some c
count_of _ = none

pub count_of-IsCountOf : (r : Request) → IsCountOf r (count_of r)
count_of-IsCountOf r = ground arith

-- A request that is encoded, in a PDU that the framer lets through.
abbrev pub IsSendable : Request → Type 0
IsSendable r = IsEncodable r × (length (request_bytes r) ≤ 259)

outcome-unit_id : (d : Device) (r : Request) → (outcome d r).1.unit_id ≡ d.unit_id
outcome-unit_id d r = ground arith

device_after-unit_id : (d : Device) (r : Request) → (device_after d r).unit_id ≡ d.unit_id
device_after-unit_id d r = elim (Option-cases (verdict d r)) [
  | inl allowed ↦ rw allowed (outcome-unit_id d r)
  | inr (m, refusal) ↦ rw refusal refl
]

device_after-IsValid :
    (d : Device) (r : Request) → IsValid d → IsEncodable r → IsValid (device_after d r)
device_after-IsValid d r v h = elim (Option-cases (verdict d r)) [
  | inl allowed ↦ rw allowed (outcome-IsValid d r v h allowed)
  | inr (m, refusal) ↦ rw refusal v
]

-- After a transaction the client is ready for the next.
pub device_after-IsReady :
    (client : Client) (store : DataStore) (device : Device) (r : Request)
    → IsReady client store device
    → IsEncodable r
    → IsReady
        (record client { tid = next_tid client.tid })
        (update store client.unit_id (device_after device r))
        (device_after device r)
device_after-IsReady client store device r ready h =
    let (unit, held) = get-eq-some store client.unit_id device ready.found in
    record {
      connected = ready.connected;
      inbox = ready.inbox;
      tid = ground (arith, ready.tid);
      unit = ready.unit;
      found =
          get-update store client.unit_id (device_after device r) client.unit_id
            (device_after-unit_id device r ∙ unit)
          ∙ rw (==_refl client.unit_id, held) refl;
      valid = device_after-IsValid device r ready.valid h;
    }

-- Transactions in turn, each result kept.
unfoldable pub transact_all :
    Client → Link → List Request → List (Result Response) × (Client × Link)
transact_all client link [] = ([], (client, link))
transact_all client link (r ∷ rs) =
    let (result, (client', link')) = transact serve client link r (count_of r) in
    let (results, ends) = transact_all client' link' rs in (result ∷ results, ends)

-- What the device alone answers to requests in turn.
unfoldable pub respond_all : Device → List Request → List Response × Device
respond_all d [] = ([], d)
respond_all d (r ∷ rs) =
    let (responses, d') = respond_all (device_after d r) rs in (response_to d r ∷ responses, d')

-- A ready client and the server over a connection implement the device: sendable requests in turn come to what
-- the device answers, with exception responses raised, and the server's device is the one that they
-- leave.
pub transact_all-respond_all :
    (client : Client) (store : DataStore) (device : Device) (rs : List Request)
    → IsReady client store device
    → All IsSendable rs
    → ((transact_all client (open_link store) rs).0 ≡ map raise_exception (respond_all device rs).0)
      × (get (transact_all client (open_link store) rs).1.1.store client.unit_id
          ≡ some (respond_all device rs).1)
unfolding transact_all respond_all
transact_all-respond_all client store device [] ready h = (refl, ready.found)
transact_all-respond_all client store device (r ∷ rs) ready h =
    let now =
      transact-serve client store device r (count_of r) ready (encode_request_pdu_lem r h.0.0) h.0.1
        (count_of-IsCountOf r) in
    let later =
      transact_all-respond_all (record client { tid = next_tid client.tid })
        (update store client.unit_id (device_after device r)) (device_after device r) rs
        (device_after-IsReady client store device r ready h.0.0) h.1 in
    rw now (ap (λ l. raise_exception (response_to device r) ∷ l) later.0, later.1)

-- What it takes for a client to write these registers.
pub record IsWritable (device : Device) (address : ℕ) (values : List ℕ) : Type 0 where
  pub address_fits : IsWord address
  pub values_fit : IsWords values
  pub some_value : 1 ≤ length values
  pub allowed : length values ≤ 123
  pub in_range : address + length values ≤ device.holding_registers.size

pub write_registers-allowed :
    (d : Device) (a : ℕ) (vs : List ℕ)
    → IsWritable d a vs
    → handle_request d (write_multiple_registers_request a vs)
      ≡ ok (outcome d (write_multiple_registers_request a vs))
unfolding verdict
write_registers-allowed d a vs w =
    handle_request-ruling d (write_multiple_registers_request a vs) ∙ ground (arith, w)

-- Registers that a ready client writes, within the limits and the region, are read back by it.
pub read_holding_registers-write_registers :
    (client : Client) (store : DataStore) (device : Device) (a : ℕ) (vs : List ℕ)
    → IsReady client store device
    → IsWritable device a vs
    → ((write_registers serve client (open_link store) a vs).0 ≡ ok tt)
      × ((read_holding_registers serve
            (write_registers serve client (open_link store) a vs).1.0
            (write_registers serve client (open_link store) a vs).1.1
            a
            (length vs)).0
          ≡ ok vs)
unfolding write_registers read_holding_registers
read_holding_registers-write_registers client store device a vs ready w =
    let write = write_multiple_registers_request a vs in
    let read = read_holding_registers_request a (length vs) in
    let fits : IsEncodable write = (w.address_fits, (omega (arith, w.allowed), w.values_fit)) in
    let (told, left) = response_to-eq-ok device write (write_registers-allowed device a vs w) in
    let (back, _) = response_to-eq-ok (outcome device write).1 read (
      read_holding-write_multiple_registers device a vs ready.valid
        (write_registers-allowed device a vs w)) in
    let first =
      transact-serve client store device write none ready (encode_request_pdu_lem write fits)
        (omega (arith, length-word_bytes vs, w.allowed)) tt in
    let next = device_after-IsReady client store device write ready fits in
    let second =
      transact-serve (record client { tid = next_tid client.tid })
        (update store client.unit_id (device_after device write)) (device_after device write) read
        none next (encode_request_pdu_lem read (w.address_fits, omega (arith, w.allowed)))
        (omega arith) tt in
    rw (first, second) (rw (told) refl, rw (left, back) refl)
