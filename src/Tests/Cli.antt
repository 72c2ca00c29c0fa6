-- ===== src/Tests/Cli.antt =====
-- Command lines at concrete inputs.
use modbus_sim.Prelude.{ℕ, List, [], ◌∷◌, ◌≡◌, refl, true, false, map, arith, Option, some}
use modbus_sim.Prelude.Integers.{ℤ, pos, negsuc}
use modbus_sim.Result.{Result, ok, err, value_error, argument_type_error, os_error}
use modbus_sim.Frame.Bits.{pack_bits}
use modbus_sim.Frame.Request.{write_multiple_coils_request}
use modbus_sim.Datastore.Store.{DataStore, get, update}
use modbus_sim.Dispatcher.Verdict.{verdict}
use modbus_sim.Server.Connection.Link.{open_link, serve}
use modbus_sim.Client.Answer.{device_after}
use modbus_sim.Client.Session.{IsSendable, IsWritable}
use modbus_sim.Cli.Text.{Codes, codes, coil_value, int_any, int_list, coil_list}
use modbus_sim.Cli.Text.Parts.{joined}
use modbus_sim.Cli.Text.Shown.{int_text, bool_text, int_list-joined, coil_list-joined}
use modbus_sim.Cli.Arguments.{holding, WriteCommand, coils_to, registers_to}
use modbus_sim.Cli.Reads.{IsHosted, request_of, read_report, read_loop-report}
use modbus_sim.Cli.Writes.{write_report, write_once-report}
use modbus_sim.Cli.Shell.{write_options, read_options, main-main}
use modbus_sim.Cli.{words, read_line, wrote_line, read_loop, write_once, run_client, main}
use modbus_sim.Tests.Data.{sensor, plant}

abbrev literals : List (Result ℤ)
literals = map int_any (
    codes " 5"
    ∷ codes "0x_1f"
    ∷ codes "0_"
    ∷ codes "00"
    ∷ codes "0_0"
    ∷ codes "012"
    ∷ codes "+5"
    ∷ codes "- 5"
    ∷ codes "0X1F"
    ∷ codes "0b102"
    ∷ codes "0o17"
    ∷ codes "1__0"
    ∷ codes "_1"
    ∷ codes "0x"
    ∷ codes ""
    ∷ codes "5 6"
    ∷ codes "-0x10"
    ∷ codes "1_000"
    ∷ [])

literals_are_read :
    literals
    ≡ ok (pos 5)
      ∷ ok (pos 31)
      ∷ err value_error
      ∷ ok (pos 0)
      ∷ ok (pos 0)
      ∷ err value_error
      ∷ ok (pos 5)
      ∷ err value_error
      ∷ ok (pos 31)
      ∷ err value_error
      ∷ ok (pos 15)
      ∷ err value_error
      ∷ err value_error
      ∷ err value_error
      ∷ err value_error
      ∷ err value_error
      ∷ ok (negsuc 15)
      ∷ ok (pos 1000)
      ∷ []
unfolding int_any
literals_are_read = refl

registers_are_read : int_list (codes "1, 0x10,,-3") ≡ ok (pos 1 ∷ pos 16 ∷ negsuc 2 ∷ [])
unfolding int_list
registers_are_read = refl

coils_are_read : coil_list (codes "1,off, YES ,0") ≡ ok (true ∷ false ∷ true ∷ false ∷ [])
unfolding coil_list
coils_are_read = refl

no_coil : coil_value (codes "2") ≡ err argument_type_error
unfolding coil_value
no_coil = refl

int_list-joined_example :
    int_list (joined (map int_text (pos 275 ∷ negsuc 2 ∷ []))) ≡ ok (pos 275 ∷ negsuc 2 ∷ [])
int_list-joined_example = int_list-joined (pos 275 ∷ negsuc 2 ∷ [])

coil_list-joined_example :
    coil_list (joined (map bool_text (true ∷ false ∷ []))) ≡ ok (true ∷ false ∷ [])
coil_list-joined_example = coil_list-joined (true ∷ false ∷ [])

sensor-IsHosted : IsHosted 1 plant sensor
unfolding get
sensor-IsHosted = record { unit = omega arith; found = refl; valid = omega arith }

-- Two reads before the user interrupts, then a range past the end.
abbrev watched : Option ℕ
watched = some 1

read_loop-report_example :
    (run_client serve (read_loop serve holding watched 1 1 0 4 (open_link plant))).0
    ≡ read_report (verdict sensor (request_of holding 0 4)) sensor holding 1 0 4 watched 1
read_loop-report_example =
    read_loop-report holding watched 1 1 0 4 plant sensor sensor-IsHosted (omega arith)
      (omega arith)

abbrev switched : WriteCommand
switched = coils_to (true ∷ false ∷ [])

switched-IsSendable : IsSendable (write_multiple_coils_request 2 (true ∷ false ∷ []))
unfolding pack_bits
switched-IsSendable = omega arith

write_once-report_example : run_client serve (write_once serve switched 1 2 (open_link plant)) ≡ (
  write_report
      (verdict sensor (write_multiple_coils_request 2 (true ∷ false ∷ [])))
      (write_multiple_coils_request 2 (true ∷ false ∷ []))
      1
      2
      switched,
  open_link
      (update plant 1 (device_after sensor (write_multiple_coils_request 2 (true ∷ false ∷ [])))),
)
write_once-report_example =
    write_once-report switched 1 2 plant sensor (write_multiple_coils_request 2 (true ∷ false ∷ []))
      sensor-IsHosted refl switched-IsSendable

-- What the other parts of a command line are not asked for.
abbrev no_file : Codes → Result (DataStore × Unit {0})
no_file path = err os_error

abbrev no_server : DataStore → Unit {0} → (host : Codes) → (port : ℤ) → Result (Unit {0})
no_server store bindings host port = ok tt

abbrev no_float : Codes → Result ℕ
no_float text = err value_error

new_registers-IsWritable : IsWritable sensor 1 (275 ∷ 3 ∷ [])
new_registers-IsWritable = record {
  address_fits = omega arith;
  values_fit = omega arith;
  some_value = omega arith;
  allowed = omega arith;
  in_range = omega arith;
}

main-main_example :
    ((main no_file no_server serve no_float
        (ok tt)
        0
        (codes "write-registers")
        (write_options 1 1 (275 ∷ 3 ∷ []))
        (open_link plant)).0
      ≡ record {
        printed = wrote_line 1 1 (registers_to (pos 275 ∷ pos 3 ∷ [])) ∷ [];
        complained = [];
        exit = ok 0;
      })
    × ((main no_file no_server serve no_float
          (ok tt)
          0
          (codes "read-holding")
          (read_options 1 1 2)
          (main no_file no_server serve no_float
            (ok tt)
            0
            (codes "write-registers")
            (write_options 1 1 (275 ∷ 3 ∷ []))
            (open_link plant)).1).0
        ≡ record {
          printed = read_line 1 holding 1 3 (words (275 ∷ 3 ∷ [])) ∷ [];
          complained = [];
          exit = ok 0;
        })
main-main_example =
    main-main no_file no_server no_float 0 1 1 (275 ∷ 3 ∷ []) plant sensor sensor-IsHosted
      new_registers-IsWritable
