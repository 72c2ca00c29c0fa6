-- ===== src/Datastore/Value.antt =====
-- The slots of a `MemoryBlock`, of Python type `int | bool`, with numbers that are not negative.
use modbus_sim.Prelude.{ℕ, Bool, not, ◌==◌, if◌then◌else◌}

pub data Value : Type 0 where
  num : ℕ → Value
  flag : Bool → Value

-- `bool(v)`
abbrev pub to_bool : Value → Bool
to_bool (num n) = not (n == 0)
to_bool (flag b) = b

-- `int(v)`
abbrev pub to_int : Value → ℕ
to_int (num n) = n
to_int (flag b) = if b then 1 else 0
