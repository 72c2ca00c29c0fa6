-- ===== src/Datastore/Name.antt =====
-- The name of a device that is not named, in modbus_sim/datastore.py and modbus_sim/config.py: `f"device-{unit_id}"`.
use Prim.Native.String.{String}
use Prim.Native.String as Text
use modbus_sim.Prelude.{ℕ, zero, suc, ◌/◌, ◌%◌, [], ◌∷◌, ltb, if◌then◌else◌, get_or}

abbrev digit : ℕ → String
digit d = get_or ("0" ∷ "1" ∷ "2" ∷ "3" ∷ "4" ∷ "5" ∷ "6" ∷ "7" ∷ "8" ∷ "9" ∷ []) d ""

-- Decimal digits, on fuel; there are no more of them than the number is.
decimal : ℕ → ℕ → String
decimal zero n = digit n
decimal (suc fuel) n =
    let tens = decimal fuel (n / 10) in
    if ltb n 10 then digit n else Text.◌++◌ tens (digit (n % 10))

unfoldable pub default_name : ℕ → String
unfolding decimal
default_name unit_id = Text.◌++◌ "device-" (decimal unit_id unit_id)

-- `name or default`
abbrev pub name_or : String → String → String
name_or Text.[] default = default
name_or (Text.◌∷◌ c name) default = Text.◌∷◌ c name
