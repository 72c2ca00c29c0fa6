-- ===== src/Cli/Writes.antt =====
-- The write commands of modbus_sim/cli.py against the server of modbus_sim/server.py: what is written, what is printed, and
-- the exit status.
use modbus_sim.Prelude.{
  ℕ, Bool, ◌≡◌, refl, subst, Option, none, some, List, [], ◌∷◌, Option-cases, inl, inr,
}
use modbus_sim.Prelude.Integers.{pos, negsuc}
use modbus_sim.Result.{
  ModbusError, Result, ok, err, modbus_exception, ◌>>=◌, bind-eq-ok, ok_injective,
}
use modbus_sim.Frame.Request.{
  Request, write_single_coil_request, write_single_register_request, write_multiple_coils_request,
  write_multiple_registers_request,
}
use modbus_sim.Frame.Request.Valid.{encode_request_pdu_lem}
use modbus_sim.Datastore.Device.{Device}
use modbus_sim.Datastore.Store.{DataStore, update}
use modbus_sim.Dispatcher.{exception_code}
use modbus_sim.Dispatcher.Verdict.{verdict}
use modbus_sim.Server.Connection.Link.{Link, open_link, serve}
use modbus_sim.Client.{
  Client, make_client, connect, next_tid, raise_exception, transact, write_coil, write_register,
  write_coils, write_registers, seen, done,
}
use modbus_sim.Client.Answer.{IsCountOf, function_code, response_to, device_after}
use modbus_sim.Client.Served.{transact-serve}
use modbus_sim.Client.Session.{IsSendable}
use modbus_sim.Cli.Arguments.{WriteCommand, coil_to, register_to, coils_to, registers_to}
use modbus_sim.Cli.Reads.{IsHosted, make_client-IsReady}
use modbus_sim.Cli.{
  Report, wrote_line, modbus_complaint, natural, naturals, call_write, after_write, write_once,
  run_client,
}

-- The request of a write command; there is none for a negative register.
abbrev pub request_for : WriteCommand → ℕ → Result Request
request_for (coil_to value) a = ok (write_single_coil_request a value)
request_for (register_to value) a = natural value >>= λ n. ok (write_single_register_request a n)
request_for (coils_to values) a = ok (write_multiple_coils_request a values)
request_for (registers_to values) a =
    naturals values >>= λ ns. ok (write_multiple_registers_request a ns)

-- A write is sent with no count of bits.
request_for-IsCountOf :
    (command : WriteCommand) (a : ℕ) (r : Request) → request_for command a ≡ ok r → IsCountOf r none
request_for-IsCountOf (coil_to v) a r e = subst (λ r. IsCountOf r none) (ok_injective e) tt
request_for-IsCountOf (register_to (pos v)) a r e =
    subst (λ r. IsCountOf r none) (ok_injective e) tt
request_for-IsCountOf (register_to (negsuc v)) a r e = absurd (cc e)
request_for-IsCountOf (coils_to vs) a r e = subst (λ r. IsCountOf r none) (ok_injective e) tt
request_for-IsCountOf (registers_to zs) a r e =
    let (vs, read, made) = bind-eq-ok (naturals zs) _ e in
    subst (λ r. IsCountOf r none) (ok_injective made) tt

abbrev told_write : Option ModbusError → Request → Result (Unit {0})
told_write none r = ok tt
told_write (some m) r = err (modbus_exception (function_code r) (exception_code m))

module _ {ℓ} {S : Type ℓ} (d : Device) (state : S) where
  -- What the caller of a write sees of the response.
  abbrev Tells : Request → Type ℓ
  Tells r =
      seen (done serve) (raise_exception (response_to d r), state)
      ≡ (told_write (verdict d r) r, state)

  coil-Tells : (a : ℕ) (v : Bool) → Tells (write_single_coil_request a v)
  coil-Tells a v = elim (Option-cases (verdict d (write_single_coil_request a v))) [
    | inl allowed ↦ rw allowed refl
    | inr (m, refusal) ↦ rw refusal refl
  ]

  register-Tells : (a v : ℕ) → Tells (write_single_register_request a v)
  register-Tells a v = elim (Option-cases (verdict d (write_single_register_request a v))) [
    | inl allowed ↦ rw allowed refl
    | inr (m, refusal) ↦ rw refusal refl
  ]

  coils-Tells : (a : ℕ) (vs : List Bool) → Tells (write_multiple_coils_request a vs)
  coils-Tells a vs = elim (Option-cases (verdict d (write_multiple_coils_request a vs))) [
    | inl allowed ↦ rw allowed refl
    | inr (m, refusal) ↦ rw refusal refl
  ]

  registers-Tells : (a : ℕ) (vs : List ℕ) → Tells (write_multiple_registers_request a vs)
  registers-Tells a vs = elim (Option-cases (verdict d (write_multiple_registers_request a vs))) [
    | inl allowed ↦ rw allowed refl
    | inr (m, refusal) ↦ rw refusal refl
  ]

module _ (client client' : Client) (link link' : Link) (d : Device) where
  -- The server's answer to a request with no count.
  abbrev Answers : Request → Type 0
  Answers r =
      transact serve client link r none ≡ (raise_exception (response_to d r), (client', link'))

  abbrev Calls : WriteCommand → ℕ → Request → Type 0
  Calls command a r =
      call_write serve command client link a ≡ (told_write (verdict d r) r, (client', link'))

  call_write-Calls :
      (command : WriteCommand) (a : ℕ) (r : Request)
      → request_for command a ≡ ok r
      → Answers r
      → Calls command a r
  unfolding write_coil write_register write_coils write_registers
  call_write-Calls (coil_to v) a r e =
      subst (λ r. Answers r → Calls (coil_to v) a r) (ok_injective e)
        (λ sent. rw sent (coil-Tells d (client', link') a v))
  call_write-Calls (register_to (pos v)) a r e =
      subst (λ r. Answers r → Calls (register_to (pos v)) a r) (ok_injective e)
        (λ sent. rw sent (register-Tells d (client', link') a v))
  call_write-Calls (register_to (negsuc v)) a r e = absurd (cc e)
  call_write-Calls (coils_to vs) a r e =
      subst (λ r. Answers r → Calls (coils_to vs) a r) (ok_injective e)
        (λ sent. rw sent (coils-Tells d (client', link') a vs))
  call_write-Calls (registers_to zs) a r e =
      let (vs, read, made) = bind-eq-ok (naturals zs) _ e in
      subst (λ r. Answers r → Calls (registers_to zs) a r) (ok_injective made)
        (λ sent. rw (read, sent) (registers-Tells d (client', link') a vs))

-- What a write command reports for a verdict: what it wrote, or the two codes of the refusal.
abbrev pub write_report : Option ModbusError → Request → ℕ → ℕ → WriteCommand → Report
write_report none r unit_id a command = record {
  printed = wrote_line unit_id a command ∷ [];
  complained = [];
  exit = ok 0;
}
write_report (some m) r unit_id a command = record {
  printed = [];
  complained = modbus_complaint (function_code r) (exception_code m) ∷ [];
  exit = ok 1;
}

reported :
    (v : Option ModbusError) (r : Request) (unit_id a : ℕ) (command : WriteCommand)
    (client : Client) (link : Link)
    → run_client serve
        (after_write serve (told_write v r, (client, link)) (wrote_line unit_id a command))
      ≡ (write_report v r unit_id a command, link)
reported none r unit_id a command client link = refl
reported (some m) r unit_id a command client link = refl

-- A write command whose numbers fit, for a device of the server, reports what it wrote and exits with 0 where the device allows the
-- request, and reports the codes of the exception response and exits with 1 where it does not; the
-- server's device is as the request leaves it.
pub write_once-report :
    (command : WriteCommand) (unit_id a : ℕ) (store : DataStore) (d : Device) (r : Request)
    → IsHosted unit_id store d
    → request_for command a ≡ ok r
    → IsSendable r
    → run_client serve (write_once serve command unit_id a (open_link store)) ≡ (
      write_report (verdict d r) r unit_id a command,
      open_link (update store unit_id (device_after d r)),
    )
unfolding write_once
write_once-report command unit_id a store d r hosted made fits =
    let ready = make_client-IsReady unit_id store d hosted in
    let client = connect (make_client unit_id) in
    let sent =
      transact-serve client store d r none ready (encode_request_pdu_lem r fits.0) fits.1
        (request_for-IsCountOf command a r made) in
    let called =
      call_write-Calls client (record client { tid = next_tid client.tid }) (open_link store)
        (open_link (update store unit_id (device_after d r))) d command a r made sent in
    rw called (reported (verdict d r) r unit_id a command _ _)
