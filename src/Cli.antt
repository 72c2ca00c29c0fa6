-- ===== src/Cli.antt =====
-- The command line of modbus_sim/cli.py: `_read_loop`, `_write`, `_run_client`, `_run_serve` and `main`. What the program
-- prints is a list of lines, less the time of day; the peer of the client is a function of its state and the bytes
-- written, as for the client, and `connects` is whether there is one.
pub mod Text
pub mod Arguments
pub mod Reads
pub mod Writes
pub mod Shell
use modbus_sim.Prelude.{ℕ, zero, suc, ◌+◌, Bool, Option, none, some, List, [], ◌∷◌, Bytes}
use modbus_sim.Prelude.Integers.{ℤ, pos, negsuc}
use modbus_sim.Result.{
  Exception, Result, ok, err, struct_error, os_error, modbus_exception, ◌>>=◌, ◌>>◌,
}
use modbus_sim.Datastore.Store.{DataStore, len}
use modbus_sim.Client.{
  Client, make_client, connect, read_coils, read_discrete_inputs, read_holding_registers,
  read_input_registers, write_coil, write_register, write_coils, write_registers,
}
use modbus_sim.Cli.Text.{Codes}
use modbus_sim.Cli.Arguments.{
  Args, ReadCommand, coils, discrete, holding, input, WriteCommand, coil_to, register_to, coils_to,
  registers_to, Target, Options, serve_args, read_args, write_args, parse_args,
}

-- What a read returns.
pub data Values : Type 0 where
  bits : List Bool → Values
  words : List ℕ → Values

-- A line of standard output: the unit, the region with the addresses from the first to one past the last, and the
-- values; or what was written, and where. `serving` counts the devices.
pub data Line : Type 0 where
  read_line : (unit_id : ℕ) (label : ReadCommand) (address end : ℕ) → Values → Line
  wrote_line : (unit_id address : ℕ) → WriteCommand → Line
  serving : ℕ → Line
  shutting_down : Line

-- A line of standard error.
pub data Complaint : Type 0 where
  modbus_complaint : (function_code exception_code : ℕ) → Complaint
  connection_complaint usage : Complaint

-- How a coroutine ends. `interrupted` is a `KeyboardInterrupt`.
pub data Ending : Type 0 where
  returned interrupted : Ending
  raised : Exception → Ending

-- What was printed, and how it ended: with an exit status, or an exception that nothing catches.
pub record Report : Type 0 where
  pub printed : List Line
  pub complained : List Complaint
  pub exit : Result ℕ

-- A negative number in a request is refused by `struct`, before anything is sent.
abbrev pub natural : ℤ → Result ℕ
natural (pos n) = ok n
natural (negsuc n) = err struct_error

abbrev pub naturals : List ℤ → Result (List ℕ)
naturals [] = ok []
naturals (z ∷ zs) = do n ← natural z; ns ← naturals zs; ok (n ∷ ns)

abbrev pub seen_as {ℓ κ} :
    {A : Type ℓ} {S : Type κ} → (A → Values) → Result A × S → Result Values × S
seen_as view (ok value, state) = (ok (view value), state)
seen_as view (err e, state) = (err e, state)

-- What a coroutine printed, how it ended and the state of the peer.
abbrev pub Course {ℓ} : Type ℓ → Type ℓ
Course S = List Line × (Ending × S)

abbrev pub read_numbers : Target → ℤ → Result (ℕ × ℕ × ℕ)
read_numbers to count = do
  unit_id ← natural to.unit_id
  address ← natural to.address
  count' ← natural count
  ok (unit_id, address, count')

abbrev pub write_numbers : Target → Result (ℕ × ℕ)
write_numbers to = do
  unit_id ← natural to.unit_id
  address ← natural to.address
  ok (unit_id, address)

module _ {ℓ} {S : Type ℓ} (peer : S → Bytes → Bytes × S) where
  -- `READ_COMMANDS` and `getattr`.
  abbrev pub call_read : ReadCommand → Client → S → ℕ → ℕ → Result Values × (Client × S)
  call_read coils client state address count =
      seen_as bits (read_coils peer client state address count)
  call_read discrete client state address count =
      seen_as bits (read_discrete_inputs peer client state address count)
  call_read holding client state address count =
      seen_as words (read_holding_registers peer client state address count)
  call_read input client state address count =
      seen_as words (read_input_registers peer client state address count)

  -- The call that follows once the numbers of a request are not negative.
  abbrev pub or_refuse {κ ι} :
      {A : Type κ} {B : Type ι}
      → Result A
      → Client
      → S
      → (A → Result B × (Client × S))
      → Result B × (Client × S)
  or_refuse (ok value) client state call = call value
  or_refuse (err e) client state call = (err e, (client, state))

  abbrev pub call_write : WriteCommand → Client → S → ℕ → Result (Unit {0}) × (Client × S)
  call_write (coil_to value) client state address = write_coil peer client state address value
  call_write (register_to value) client state address =
      or_refuse (natural value) client state (write_register peer client state address)
  call_write (coils_to values) client state address = write_coils peer client state address values
  call_write (registers_to values) client state address =
      or_refuse (naturals values) client state (write_registers peer client state address)

  -- One turn of the loop of `_read_loop`, and the turns that follow.
  abbrev pub then_turn :
      Result Values × (Client × S) → (Values → Line) → (Client → S → Course S) → Course S
  then_turn (err e, (client, state)) line later = ([], (raised e, state))
  then_turn (ok values, (client, state)) line later =
      let (lines, ends) = later client state in (line values ∷ lines, ends)

  -- The turns after the first, if `--watch` is given: as many as there are sleeps before the user interrupts one.
  watch_on : ReadCommand → ℕ → ℕ → ℕ → ℕ → Client → S → Course S
  watch_on command unit_id address count zero client state = ([], (interrupted, state))
  watch_on command unit_id address count (suc sleeps) client state =
      then_turn (call_read command client state address count)
        (read_line unit_id command address (address + count))
        (watch_on command unit_id address count sleeps)

  abbrev go_on {κ} : {F : Type κ} → Option F → (Client → S → Course S) → Client → S → Course S
  go_on none later client state = ([], (returned, state))
  go_on (some seconds) later client state = later client state

  -- `_read_loop`, once connected.
  unfoldable pub read_loop {κ} :
      {F : Type κ} → ReadCommand → Option F → ℕ → ℕ → ℕ → ℕ → S → Course S
  unfolding watch_on
  read_loop command watch sleeps unit_id address count state =
      then_turn (call_read command (connect (make_client unit_id)) state address count)
        (read_line unit_id command address (address + count))
        (go_on watch (watch_on command unit_id address count sleeps))

  abbrev after_write : Result (Unit {0}) × (Client × S) → Line → Course S
  after_write (err e, (client, state)) line = ([], (raised e, state))
  after_write (ok _, (client, state)) line = (line ∷ [], (returned, state))

  -- `_write`, once connected.
  unfoldable pub write_once : WriteCommand → ℕ → ℕ → S → Course S
  write_once command unit_id address state =
      after_write (call_write command (connect (make_client unit_id)) state address)
        (wrote_line unit_id address command)

  -- The context manager connects first, and may fail.
  abbrev pub with_client {κ} :
      {A : Type κ} → Result (Unit {0}) → Result A → S → (A → Course S) → Course S
  with_client (err e) request state course = ([], (raised e, state))
  with_client (ok _) (err e) state course = ([], (raised e, state))
  with_client (ok _) (ok request) state course = course request

  -- `_read_loop`
  abbrev pub read_course {κ} :
      {F : Type κ} → Result (Unit {0}) → ℕ → ReadCommand → Target → ℤ → Option F → S → Course S
  read_course connects sleeps command to count watch state =
      with_client connects (read_numbers to count) state
        (λ (unit_id, address, count'). read_loop command watch sleeps unit_id address count' state)

  -- `_write`
  abbrev pub write_course : Result (Unit {0}) → WriteCommand → Target → S → Course S
  write_course connects command to state =
      with_client connects (write_numbers to) state
        (λ (unit_id, address). write_once command unit_id address state)

  -- `_run_client`: what it makes of the end of a coroutine.
  abbrev pub finish : Ending → List Complaint × Result ℕ
  finish returned = ([], ok 0)
  finish interrupted = ([], ok 0)
  finish (raised (modbus_exception fc ec)) = (modbus_complaint fc ec ∷ [], ok 1)
  finish (raised os_error) = (connection_complaint ∷ [], ok 1)
  finish (raised e) = ([], err e)

  abbrev pub run_client : Course S → Report × S
  run_client (lines, (ending, state)) =
      let (complained, exit) = finish ending in
      (record { printed = lines; complained = complained; exit = exit }, state)

-- `_run_serve`, over `load_datastore` and the server, which ends without an exception if it is interrupted.
module _ {κ} {B : Type κ} (load : Codes → Result (DataStore × B))
    (serves : DataStore → B → (host : Codes) → (port : ℤ) → Result (Unit {0})) where
  after_serving : DataStore → Result (Unit {0}) → Report
  after_serving store (ok _) = record {
    printed = serving (len store) ∷ shutting_down ∷ [];
    complained = [];
    exit = ok 0;
  }
  after_serving store (err e) = record {
    printed = serving (len store) ∷ [];
    complained = [];
    exit = err e;
  }

  loaded : Codes → ℤ → Result (DataStore × B) → Report
  unfolding after_serving
  loaded host port (err e) = record { printed = []; complained = []; exit = err e }
  loaded host port (ok (store, bindings)) = after_serving store (serves store bindings host port)

  unfoldable pub run_serve : Codes → Codes → ℤ → Report
  unfolding loaded
  run_serve config host port = loaded host port (load config)

  module _ {ℓ} {S : Type ℓ} (peer : S → Bytes → Bytes × S) {F : Type 0} (float : Codes → Result F)
      (connects : Result (Unit {0})) (sleeps : ℕ) where
    run_args : Result (Args F) → S → Report × S
    unfolding run_serve
    run_args (err e) state = (record { printed = []; complained = usage ∷ []; exit = ok 2 }, state)
    run_args (ok (serve_args config host port log_level)) state =
        (run_serve config host port, state)
    run_args (ok (read_args command to count watch)) state =
        run_client peer (read_course peer connects sleeps command to count watch state)
    run_args (ok (write_args command to)) state =
        run_client peer (write_course peer connects command to state)

    -- `main`
    unfoldable pub main : Codes → Options → S → Report × S
    unfolding run_args
    main command options state = run_args (parse_args float command options) state
