-- ===== src/Cli/Arguments.antt =====
-- `build_parser` of modbus_sim/cli.py and the `Namespace` that it makes. A command line is given as the command and the
-- options after it, each with its value and named in full; `float`, for `--watch`, is a parameter. A usage error, for
-- which argparse exits with status 2, is an exception here.
use modbus_sim.Prelude.{Bool, false, true, Option, none, some, List, [], ◌∷◌, if◌then◌else◌}
use modbus_sim.Prelude.Integers.{ℤ, pos}
use modbus_sim.Result.{Result, ok, err, argument_type_error, ◌>>=◌, ◌>>◌}
use modbus_sim.Cli.Text.{
  Codes, codes, same_codes, is_among, int_any, int_decimal, int_list, coil_value, coil_list,
}

-- The keys of `READ_COMMANDS`.
pub data ReadCommand : Type 0 where
  coils discrete holding input : ReadCommand

-- The write commands, with the values of `--value` or `--values`.
pub data WriteCommand : Type 0 where
  coil_to : Bool → WriteCommand
  register_to : ℤ → WriteCommand
  coils_to : List Bool → WriteCommand
  registers_to : List ℤ → WriteCommand

pub record Target : Type 0 where
  pub host : Codes
  pub port : ℤ
  pub unit_id : ℤ
  pub address : ℤ

abbrev pub Options : Type 0
Options = List (Codes × Codes)

-- The last value of an option; every value is converted.
abbrev pub option {ℓ} :
    {A : Type ℓ} → Codes → (Codes → Result A) → Option A → Options → Result (Option A)
option name convert found [] = ok found
option name convert found ((key, text) ∷ options) = elim (same_codes key name) [
  | true ↦ convert text >>= λ value. option name convert (some value) options
  | false ↦ option name convert found options
]

abbrev pub or_default {ℓ} : {A : Type ℓ} → A → Option A → A
or_default default none = default
or_default default (some value) = value

abbrev pub given {ℓ} : {A : Type ℓ} → Option A → Result A
given none = err argument_type_error
given (some value) = ok value

-- An option that no argument of the command has is refused.
abbrev pub only : List Codes → Options → Result (Unit {0})
only names [] = ok tt
only names ((key, text) ∷ options) =
    let rest = only names options in if is_among key names then rest else err argument_type_error

abbrev pub any_text : Codes → Result Codes
any_text text = ok text

-- `add_client_args` and `--addr`
abbrev pub target_of : Options → Result Target
target_of options = do
  host ← option (codes "--host") any_text none options
  port ← option (codes "--port") int_decimal none options
  unit_id ← option (codes "--unit") int_decimal none options
  address ← option (codes "--addr") int_decimal none options
  address' ← given address
  ok (record {
    host = or_default (codes "127.0.0.1") host;
    port = or_default (pos 5020) port;
    unit_id = or_default (pos 1) unit_id;
    address = address';
  })

abbrev pub target_options : List Codes
target_options = codes "--host" ∷ codes "--port" ∷ codes "--unit" ∷ codes "--addr" ∷ []

-- `F` is the type of floating-point numbers.
pub data Args (F : Type 0) : Type 0 where
  serve_args : (config host : Codes) (port : ℤ) (log_level : Codes) → Args F
  read_args : ReadCommand → Target → (count : ℤ) → (watch : Option F) → Args F
  write_args : WriteCommand → Target → Args F

module _ {F : Type 0} (float : Codes → Result F) where
  abbrev pub parse_serve : Options → Result (Args F)
  parse_serve options = do
    only (codes "--config" ∷ codes "--host" ∷ codes "--port" ∷ codes "--log-level" ∷ []) options
    config ← option (codes "--config") any_text none options
    host ← option (codes "--host") any_text none options
    port ← option (codes "--port") int_decimal none options
    log_level ← option (codes "--log-level") any_text none options
    config' ← given config
    ok (
        serve_args config' (or_default (codes "127.0.0.1") host) (or_default (pos 5020) port)
          (or_default (codes "INFO") log_level))

  abbrev pub parse_read : ReadCommand → Options → Result (Args F)
  parse_read command options = do
    only (codes "--count" ∷ codes "--watch" ∷ target_options) options
    to ← target_of options
    count ← option (codes "--count") int_decimal none options
    watch ← option (codes "--watch") float none options
    ok (read_args command to (or_default (pos 1) count) watch)

  abbrev pub parse_write {ℓ} :
      {A : Type ℓ} → Codes → (Codes → Result A) → (A → WriteCommand) → Options → Result (Args F)
  parse_write name convert command options = do
    only (name ∷ target_options) options
    to ← target_of options
    value ← option name convert none options
    value' ← given value
    ok (write_args (command value') to)

  unfoldable pub parse_args : Codes → Options → Result (Args F)
  parse_args command options =
      if same_codes command (codes "serve")
      then parse_serve options
      else if same_codes command (codes "read-coils")
      then parse_read coils options
      else if same_codes command (codes "read-discrete")
      then parse_read discrete options
      else if same_codes command (codes "read-holding")
      then parse_read holding options
      else if same_codes command (codes "read-input")
      then parse_read input options
      else if same_codes command (codes "write-coil")
      then parse_write (codes "--value") coil_value coil_to options
      else if same_codes command (codes "write-register")
      then parse_write (codes "--value") int_any register_to options
      else if same_codes command (codes "write-coils")
      then parse_write (codes "--values") coil_list coils_to options
      else if same_codes command (codes "write-registers")
      then parse_write (codes "--values") int_list registers_to options
      else err argument_type_error
