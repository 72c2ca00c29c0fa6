-- ===== src/Client/Message.antt =====
-- The message of `ModbusExceptionError` of modbus_sim/client.py.
use Prim.Native.String.{String}
use Prim.Native.String as Text
use modbus_sim.Prelude.{ℕ, ◌/◌, ◌%◌, ◌≡◌, refl, [], ◌∷◌, ◌==◌, if◌then◌else◌, get_or}
use modbus_sim.Result.{
  ModbusError, illegal_function, illegal_data_address, illegal_data_value, server_device_failure,
}
use modbus_sim.Frame.Constants.{
  illegal_function_code, illegal_data_address_code, illegal_data_value_code,
  server_device_failure_code,
}
use modbus_sim.Dispatcher.{exception_code}

-- `_EXCEPTION_NAMES.get`
unfoldable pub exception_name : ℕ → String
exception_name ec =
    if ec == illegal_function_code
    then "illegal function"
    else if ec == illegal_data_address_code
    then "illegal data address"
    else if ec == illegal_data_value_code
    then "illegal data value"
    else if ec == server_device_failure_code
    then "server device failure"
    else "unknown"

abbrev hex_digit : ℕ → String
hex_digit d =
    get_or
      ("0" ∷ "1" ∷ "2" ∷ "3" ∷ "4" ∷ "5" ∷ "6" ∷ "7" ∷ "8" ∷ "9" ∷ "a" ∷ "b" ∷ "c" ∷ "d" ∷ "e" ∷ "f"
        ∷ [])
      d ""

-- `0x{…:02x}`, of a byte.
abbrev hex_byte : ℕ → String
hex_byte b = Text.◌++◌ "0x" (Text.◌++◌ (hex_digit (b / 16)) (hex_digit (b % 16)))

unfoldable pub exception_message : (function_code exception_code : ℕ) → String
unfolding exception_name
exception_message fc ec = Text.◌++◌ "function " (
    Text.◌++◌ (hex_byte fc) (
      Text.◌++◌ " -> exception "
        (Text.◌++◌ (hex_byte ec) (Text.◌++◌ " (" (Text.◌++◌ (exception_name ec) ")")))))

a_message : exception_message 3 2 ≡ "function 0x03 -> exception 0x02 (illegal data address)"
unfolding exception_message
a_message = refl

-- Every exception that the dispatcher answers with has its name.
name_of : ModbusError → String
name_of illegal_function = "illegal function"
name_of illegal_data_address = "illegal data address"
name_of illegal_data_value = "illegal data value"
name_of server_device_failure = "server device failure"

exception_name-exception_code : (m : ModbusError) → exception_name (exception_code m) ≡ name_of m
unfolding exception_name name_of
exception_name-exception_code illegal_function = refl
exception_name-exception_code illegal_data_address = refl
exception_name-exception_code illegal_data_value = refl
exception_name-exception_code server_device_failure = refl
