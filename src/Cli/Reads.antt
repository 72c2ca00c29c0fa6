-- ===== src/Cli/Reads.antt =====
-- The read commands of modbus_sim/cli.py against the server of modbus_sim/server.py: what is printed, and the exit status.
use modbus_sim.Prelude.{
  ℕ, zero, suc, ◌+◌, ◌<◌, ◌≤◌, ◌≡◌, refl, ap, subst, ◌∙◌, Option, none, some, [], ◌∷◌, map, arith,
  length, IsWord, Option-cases, inl, inr, replicate,
}
use modbus_sim.Result.{ModbusError, Result, ok, err, modbus_exception}
use modbus_sim.Frame.Request.{
  Request, read_coils_request, read_discrete_inputs_request, read_holding_registers_request,
  read_input_registers_request,
}
use modbus_sim.Frame.Request.Valid.{IsEncodable, encode_request_pdu_lem, request_bytes}
use modbus_sim.Datastore.Value.{to_bool, to_int}
use modbus_sim.Datastore.Device.{Device, IsValid}
use modbus_sim.Datastore.Store.{DataStore, get, update}
use modbus_sim.Dispatcher.{exception_code}
use modbus_sim.Dispatcher.Verdict.{verdict, slots}
use modbus_sim.Server.Connection.Link.{Link, open_link, serve}
use modbus_sim.Client.{
  Client, make_client, connect, next_tid, raise_exception, transact, read_coils,
  read_discrete_inputs, read_holding_registers, read_input_registers,
}
use modbus_sim.Client.Answer.{function_code, response_to, device_after}
use modbus_sim.Client.Served.{IsReady, transact-serve}
use modbus_sim.Client.Session.{device_after-IsReady, count_of, count_of-IsCountOf}
use modbus_sim.Cli.Arguments.{ReadCommand, coils, discrete, holding, input}
use modbus_sim.Cli.{
  Values, bits, words, read_line, interrupted, Report, modbus_complaint, call_read, watch_on,
  read_loop, run_client,
}

abbrev pub request_of : ReadCommand → ℕ → ℕ → Request
request_of coils a c = read_coils_request a c
request_of discrete a c = read_discrete_inputs_request a c
request_of holding a c = read_holding_registers_request a c
request_of input a c = read_input_registers_request a c

-- What a device holds in a range of the region of a command.
abbrev pub held : Device → ReadCommand → ℕ → ℕ → Values
held d coils a c = bits (map to_bool (slots d.coils a c))
held d discrete a c = bits (map to_bool (slots d.discrete_inputs a c))
held d holding a c = words (map to_int (slots d.holding_registers a c))
held d input a c = words (map to_int (slots d.input_registers a c))

-- What a read command is told: the values, or the exception response.
abbrev pub told : Option ModbusError → Device → ReadCommand → ℕ → ℕ → Result Values
told none d command a c = ok (held d command a c)
told (some m) d command a c =
    err (modbus_exception (function_code (request_of command a c)) (exception_code m))

read-IsEncodable :
    (command : ReadCommand) (a c : ℕ) → IsWord a → IsWord c → IsEncodable (request_of command a c)
read-IsEncodable coils a c h k = (h, k)
read-IsEncodable discrete a c h k = (h, k)
read-IsEncodable holding a c h k = (h, k)
read-IsEncodable input a c h k = (h, k)

length-read :
    (command : ReadCommand) (a c : ℕ) → length (request_bytes (request_of command a c)) ≤ 259
length-read command a c = ground arith

read-device_after :
    (d : Device) (command : ReadCommand) (a c : ℕ) → device_after d (request_of command a c) ≡ d
read-device_after d command a c = ground arith

seen_by :
    (command : ReadCommand) (client client' : Client) (link link' : Link) (d : Device) (a c : ℕ)
    → transact serve client link (request_of command a c) (count_of (request_of command a c))
      ≡ (raise_exception (response_to d (request_of command a c)), (client', link'))
    → call_read serve command client link a c
      ≡ (told (verdict d (request_of command a c)) d command a c, (client', link'))
unfolding read_coils read_discrete_inputs read_holding_registers read_input_registers
seen_by coils client client' link link' d a c e =
    rw e (elim (Option-cases (verdict d (request_of coils a c))) [
      | inl allowed ↦ rw allowed refl
      | inr (m, refusal) ↦ rw refusal refl
    ])
seen_by discrete client client' link link' d a c e =
    rw e (elim (Option-cases (verdict d (request_of discrete a c))) [
      | inl allowed ↦ rw allowed refl
      | inr (m, refusal) ↦ rw refusal refl
    ])
seen_by holding client client' link link' d a c e =
    rw e (elim (Option-cases (verdict d (request_of holding a c))) [
      | inl allowed ↦ rw allowed refl
      | inr (m, refusal) ↦ rw refusal refl
    ])
seen_by input client client' link link' d a c e =
    rw e (elim (Option-cases (verdict d (request_of input a c))) [
      | inl allowed ↦ rw allowed refl
      | inr (m, refusal) ↦ rw refusal refl
    ])

-- A read of a ready client: the values that the device holds, or its refusal. The device is left as it was.
pub call_read-serve :
    (command : ReadCommand) (client : Client) (store : DataStore) (d : Device) (a c : ℕ)
    → IsReady client store d
    → IsWord a
    → IsWord c
    → call_read serve command client (open_link store) a c ≡ (
      told (verdict d (request_of command a c)) d command a c,
      (record client { tid = next_tid client.tid }, open_link (update store client.unit_id d)),
    )
call_read-serve command client store d a c ready h k =
    let r = request_of command a c in
    let sent =
      transact-serve client store d r (count_of r) ready
        (encode_request_pdu_lem r (read-IsEncodable command a c h k)) (length-read command a c)
        (count_of-IsCountOf r) in
    seen_by command client (record client { tid = next_tid client.tid }) (open_link store)
      (open_link (update store client.unit_id d)) d a c
      (sent ∙ rw (read-device_after d command a c) refl)

pub read-IsReady :
    (command : ReadCommand) (client : Client) (store : DataStore) (d : Device) (a c : ℕ)
    → IsReady client store d
    → IsWord a
    → IsWord c
    → IsReady (record client { tid = next_tid client.tid }) (update store client.unit_id d) d
read-IsReady command client store d a c ready h k =
    let r = request_of command a c in
    subst
      (λ d'.
        IsReady (record client { tid = next_tid client.tid }) (update store client.unit_id d') d')
      (read-device_after d command a c)
      (device_after-IsReady client store d r ready (read-IsEncodable command a c h k))

module _ (command : ReadCommand) (unit_id a c : ℕ) (d : Device) (h : IsWord a) (k : IsWord c)
    (allowed : verdict d (request_of command a c) ≡ none) where
  watch_on-serve :
      (sleeps : ℕ) (client : Client) (store : DataStore)
      → IsReady client store d
      → ((watch_on serve command unit_id a c sleeps client (open_link store)).0
          ≡ replicate sleeps (read_line unit_id command a (a + c) (held d command a c)))
        × ((watch_on serve command unit_id a c sleeps client (open_link store)).1.0 ≡ interrupted)
  unfolding watch_on
  watch_on-serve zero client store ready = (refl, refl)
  watch_on-serve (suc sleeps) client store ready =
      let (lines, ends) =
        watch_on-serve sleeps (record client { tid = next_tid client.tid })
          (update store client.unit_id d) (read-IsReady command client store d a c ready h k) in
      rw (call_read-serve command client store d a c ready h k, allowed)
        (ap (λ l. read_line unit_id command a (a + c) (held d command a c) ∷ l) lines, ends)

-- What a read command reports for a verdict: the values held once, or after the first time and after each sleep if `--watch` is
-- given; or the two codes of the refusal.
abbrev pub read_report :
    {F : Type 0} → Option ModbusError → Device → ReadCommand → ℕ → ℕ → ℕ → Option F → ℕ → Report
read_report (some m) d command unit_id a c watch sleeps = record {
  printed = [];
  complained = modbus_complaint (function_code (request_of command a c)) (exception_code m) ∷ [];
  exit = ok 1;
}
read_report none d command unit_id a c none sleeps = record {
  printed = read_line unit_id command a (a + c) (held d command a c) ∷ [];
  complained = [];
  exit = ok 0;
}
read_report none d command unit_id a c (some seconds) sleeps = record {
  printed = replicate (suc sleeps) (read_line unit_id command a (a + c) (held d command a c));
  complained = [];
  exit = ok 0;
}

-- What the client needs of the server: the device, at a unit that fits in a byte.
pub record IsHosted (unit_id : ℕ) (store : DataStore) (device : Device) : Type 0 where
  pub unit : unit_id < 256
  pub found : get store unit_id ≡ some device
  pub valid : IsValid device

pub make_client-IsReady :
    (unit_id : ℕ) (store : DataStore) (device : Device)
    → IsHosted unit_id store device
    → IsReady (connect (make_client unit_id)) store device
make_client-IsReady unit_id store device i = record {
  connected = refl;
  inbox = refl;
  tid = omega arith;
  unit = i.unit;
  found = i.found;
  valid = i.valid;
}

-- A read command for a device of the server prints the values that the device holds and exits with 0, after as
-- many reads as `--watch` asks for before it is interrupted; a request that the device refuses is reported with the codes of its exception
-- response and exit status 1.
pub read_loop-report :
    {F : Type 0} (command : ReadCommand) (watch : Option F) (sleeps unit_id a c : ℕ)
    (store : DataStore) (d : Device)
    → IsHosted unit_id store d
    → IsWord a
    → IsWord c
    → (run_client serve (read_loop serve command watch sleeps unit_id a c (open_link store))).0
      ≡ read_report (verdict d (request_of command a c)) d command unit_id a c watch sleeps
unfolding read_loop
read_loop-report command none sleeps unit_id a c store d hosted h k =
    let ready = make_client-IsReady unit_id store d hosted in
    let client = connect (make_client unit_id) in
    rw (call_read-serve command client store d a c ready h k)
      (elim (Option-cases (verdict d (request_of command a c))) [
        | inr (m, refusal) ↦ rw refusal refl
        | inl allowed ↦ rw allowed refl
      ])
read_loop-report command (some seconds) sleeps unit_id a c store d hosted h k =
    let ready = make_client-IsReady unit_id store d hosted in
    let client = connect (make_client unit_id) in
    rw (call_read-serve command client store d a c ready h k)
      (elim (Option-cases (verdict d (request_of command a c))) [
        | inr (m, refusal) ↦ rw refusal refl
        | inl allowed ↦
            let (lines, ends) =
              watch_on-serve command unit_id a c d h k allowed sleeps
                (record client { tid = next_tid client.tid }) (update store unit_id d)
                (read-IsReady command client store d a c ready h k) in
            rw (allowed, lines, ends) refl
      ])
