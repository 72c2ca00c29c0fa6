-- ===== src/Cli/Shell.antt =====
-- Two command lines of modbus_sim/cli.py in turn, from their texts: registers that are written and read back.
use modbus_sim.Prelude.{
  ℕ, ◌+◌, ◌≡◌, refl, sym, ap, ◌∙◌, none, some, Option, List, [], ◌∷◌, map, length, arith,
}
use modbus_sim.Prelude.Integers.{ℤ, pos}
use modbus_sim.Result.{ModbusError, Result, ok, ok_injective}
use modbus_sim.Frame.Request.{read_holding_registers_request, write_multiple_registers_request}
use modbus_sim.Frame.Response.{Response, read_holding_registers_response}
use modbus_sim.Client.{make_client, connect}
use modbus_sim.Frame.Registers.RoundTrip.{length-word_bytes}
use modbus_sim.Datastore.Device.{Device, IsValid}
use modbus_sim.Datastore.Store.{DataStore, update}
use modbus_sim.Dispatcher.Verdict.{verdict, outcome, ruling, handle_request-ruling}
use modbus_sim.Dispatcher.Effect.{read_holding-write_multiple_registers}
use modbus_sim.Server.Connection.Link.{Link, open_link, serve}
use modbus_sim.Client.Answer.{device_after}
use modbus_sim.Client.Session.{
  IsWritable, IsSendable, write_registers-allowed, device_after-IsReady,
}
use modbus_sim.Cli.Text.{Codes, codes}
use modbus_sim.Cli.Text.Parts.{joined}
use modbus_sim.Cli.Text.Digits.{decimal_text}
use modbus_sim.Cli.Text.Shown.{int_text, int_decimal-decimal_text, int_list-joined}
use modbus_sim.Cli.Arguments.{Options, holding, registers_to, parse_args}
use modbus_sim.Cli.Reads.{
  IsHosted, make_client-IsReady, request_of, held, read_report, read_loop-report,
}
use modbus_sim.Cli.Writes.{write_report, write_once-report}
use modbus_sim.Cli.{
  Report, Values, read_line, wrote_line, words, naturals, write_once, read_loop, run_client, main,
}

-- `--unit U --addr A --values V`
abbrev pub write_options : ℕ → ℕ → List ℕ → Options
write_options unit_id a vs =
    (codes "--unit", decimal_text unit_id)
    ∷ (codes "--addr", decimal_text a)
    ∷ (codes "--values", joined (map (λ v. int_text (pos v)) vs))
    ∷ []

-- `--unit U --addr A --count N`
abbrev pub read_options : ℕ → ℕ → ℕ → Options
read_options unit_id a c =
    (codes "--unit", decimal_text unit_id)
    ∷ (codes "--addr", decimal_text a)
    ∷ (codes "--count", decimal_text c)
    ∷ []

naturals-pos : (vs : List ℕ) → naturals (map pos vs) ≡ ok vs
naturals-pos [] = refl
naturals-pos (v ∷ vs) = rw (naturals-pos vs) refl

map-pos : (vs : List ℕ) → map (λ v. int_text (pos v)) vs ≡ map int_text (map pos vs)
map-pos [] = refl
map-pos (v ∷ vs) = ap (λ l. decimal_text v ∷ l) (map-pos vs)

allowed_by :
    (v : Option ModbusError) (o p : Response × Device) → ruling v o ≡ ok p → (v ≡ none) × (o ≡ p)
allowed_by none o p h = (refl, ok_injective h)
allowed_by (some m) o p h = absurd (cc h)

registers_in :
    (xs ys : List ℕ)
    → ◌≡◌ {A = Response} (read_holding_registers_response xs) (read_holding_registers_response ys)
    → xs ≡ ys
registers_in xs ys h = cc h

-- The registers that a device holds once they are written.
held_after :
    (d : Device) (a : ℕ) (vs : List ℕ)
    → IsValid d
    → IsWritable d a vs
    → (verdict d (write_multiple_registers_request a vs) ≡ none)
      × (verdict
            (device_after d (write_multiple_registers_request a vs))
            (request_of holding a (length vs))
          ≡ none)
      × (held (device_after d (write_multiple_registers_request a vs)) holding a (length vs)
          ≡ words vs)
held_after d a vs valid w =
    let write = write_multiple_registers_request a vs in
    let read = read_holding_registers_request a (length vs) in
    let done = write_registers-allowed d a vs w in
    let (may, _) =
      allowed_by (verdict d write) (outcome d write) (outcome d write)
        (sym (handle_request-ruling d write) ∙ done) in
    let d' = (outcome d write).1 in
    let (may_read, same) =
      allowed_by (verdict d' read) (outcome d' read) (read_holding_registers_response vs, d')
        (sym (handle_request-ruling d' read)
          ∙ read_holding-write_multiple_registers d a vs valid done) in
    let later : (verdict (device_after d write) (request_of holding a (length vs)) ≡ none)
        × (held (device_after d write) holding a (length vs) ≡ words vs) =
      rw may (may_read, ap words (registers_in _ vs (ap (λ o. o.0) same))) in
    (may, later.0, later.1)

module _ {κ} {B : Type κ} (load : Codes → Result (DataStore × B))
    (serves : DataStore → B → (host : Codes) → (port : ℤ) → Result (Unit {0})) {F : Type 0}
    (float : Codes → Result F) (sleeps : ℕ) where
  -- A command line on a server that can be reached.
  abbrev run : Codes → Options → Link → Report × Link
  run = main load serves serve float (ok tt) sleeps

  write_registers-run :
      (unit_id a : ℕ) (vs : List ℕ) (link : Link)
      → run (codes "write-registers") (write_options unit_id a vs) link
        ≡ run_client serve (write_once serve (registers_to (map pos vs)) unit_id a link)
  unfolding main parse_args
  write_registers-run unit_id a vs link =
      rw
        (
          int_decimal-decimal_text unit_id,
          int_decimal-decimal_text a,
          map-pos vs,
          int_list-joined (map pos vs),
        )
        refl

  read_holding-run :
      (unit_id a c : ℕ) (link : Link)
      → run (codes "read-holding") (read_options unit_id a c) link
        ≡ run_client serve (read_loop serve {F = F} holding none sleeps unit_id a c link)
  unfolding main parse_args
  read_holding-run unit_id a c link =
      rw (int_decimal-decimal_text unit_id, int_decimal-decimal_text a, int_decimal-decimal_text c)
        refl

  -- Registers that one command line writes to a device of the server, within the limits and the region, are printed by the next, which
  -- reads them: both exit with 0, from the texts of their arguments on.
  pub main-main :
      (unit_id a : ℕ) (vs : List ℕ) (store : DataStore) (d : Device)
      → IsHosted unit_id store d
      → IsWritable d a vs
      → ((run (codes "write-registers") (write_options unit_id a vs) (open_link store)).0 ≡ record {
        printed = wrote_line unit_id a (registers_to (map pos vs)) ∷ [];
        complained = [];
        exit = ok 0;
      })
        × ((run
              (codes "read-holding")
              (read_options unit_id a (length vs))
              (run (codes "write-registers") (write_options unit_id a vs) (open_link store)).1).0
            ≡ record {
              printed = read_line unit_id holding a (a + length vs) (words vs) ∷ [];
              complained = [];
              exit = ok 0;
            })
  main-main unit_id a vs store d hosted w =
      let write = write_multiple_registers_request a vs in
      let fits : IsSendable write = (
        (w.address_fits, (omega (arith, w.allowed), w.values_fit)),
        omega (arith, length-word_bytes vs, w.allowed),
      ) in
      let (may, may_read, same) = held_after d a vs hosted.valid w in
      let ready =
        device_after-IsReady (connect (make_client unit_id)) store d write
          (make_client-IsReady unit_id store d hosted) fits.0 in
      let wrote =
        write_once-report (registers_to (map pos vs)) unit_id a store d write hosted
          (rw (naturals-pos vs) refl) fits in
      let read =
        read_loop-report {F = F} holding none sleeps unit_id a (length vs)
          (update store unit_id (device_after d write)) (device_after d write)
          (record { unit = hosted.unit; found = ready.found; valid = ready.valid }) w.address_fits
          (omega (arith, w.allowed)) in
      let d' = device_after d write in
      let line : Values → Report = λ values. record {
        printed = read_line unit_id holding a (a + length vs) values ∷ [];
        complained = [];
        exit = ok 0;
      } in
      let first = write_registers-run unit_id a vs (open_link store) ∙ wrote in
      (
        ap (λ o. o.0) first
            ∙ ap (λ v. write_report v write unit_id a (registers_to (map pos vs))) may,
        ap (λ o. (run (codes "read-holding") (read_options unit_id a (length vs)) o.1).0) first
            ∙ ap (λ o. o.0)
                (read_holding-run unit_id a (length vs) (open_link (update store unit_id d')))
            ∙ read
            ∙ ap (λ v. read_report {F = F} v d' holding unit_id a (length vs) none sleeps) may_read
            ∙ ap (λ values. line values) same,
      )
