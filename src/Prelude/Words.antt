-- ===== src/Prelude/Words.antt =====
-- Byte strings as lists of numbers below 256, and big-endian 16-bit words.
use Prim.Native.Nat.{ℕ, ◌+◌, ◌*◌, ◌/◌, ◌%◌, ◌<◌}
use mathlib.Core.List.{List}
use modbus_sim.Prelude.Lists.{All}

abbrev pub Bytes : Type 0
Bytes = List ℕ

abbrev pub IsByte : ℕ → Type 0
IsByte x = x < 256

abbrev pub IsWord : ℕ → Type 0
IsWord x = x < 65536

abbrev pub IsBytes : Bytes → Type 0
IsBytes = All IsByte

abbrev pub IsWords : List ℕ → Type 0
IsWords = All IsWord

-- The number that two bytes stand for, the high one first.
abbrev pub be16 : ℕ → ℕ → ℕ
be16 hi lo = hi * 256 + lo

-- The two bytes of a number below 65536.
abbrev pub hi8 : ℕ → ℕ
hi8 x = x / 256

abbrev pub lo8 : ℕ → ℕ
lo8 x = x % 256
