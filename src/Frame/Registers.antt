-- ===== src/Frame/Registers.antt =====
-- `pack_registers` and `unpack_registers` of modbus_sim/frame.py.
pub mod RoundTrip
use modbus_sim.Prelude.{ℕ, ◌%◌, none, List, ◌==◌, if◌then◌else◌, length, Bytes}
use modbus_sim.Result.{Result, err, modbus_error, illegal_data_value}
use modbus_sim.Frame.Struct.{pack_words, unpack_words}

unfoldable pub pack_registers : List ℕ → Result Bytes
unfolding pack_words
pack_registers registers = pack_words registers

unfoldable pub unpack_registers : Bytes → Result (List ℕ)
unfolding unpack_words
unpack_registers bytes =
    if length bytes % 2 == 0 then unpack_words bytes else err (modbus_error illegal_data_value none)
