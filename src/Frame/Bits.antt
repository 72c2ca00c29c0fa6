-- ===== src/Frame/Bits.antt =====
-- `pack_bits` and `unpack_bits` of modbus_sim/frame.py. `i >> 3` is `i / 8`, `i & 7` is `i % 8`,
-- `x >> k` is `x / 2 ^ k` and `x & 1` is `x % 2`.
mod Table
pub mod Pack
pub mod RoundTrip
use modbus_sim.Prelude.{
  ℕ, zero, suc, ◌+◌, ◌*◌, ◌/◌, ◌%◌, ◌^◌, bit_or, Bool, none, List, [], ◌∷◌, ltb, ◌==◌,
  if◌then◌else◌, length, get_or, set, replicate, Bytes,
}
use modbus_sim.Result.{Result, ok, err, modbus_error, illegal_data_value}

-- `out[i >> 3] |= 1 << (i & 7)`; the index is always below the length, see `Pack`.
set_bit : Bytes → ℕ → Bytes
set_bit out i = set out (i / 8) (bit_or (get_or out (i / 8) 0) (2 ^ (i % 8)))

-- The loop of `pack_bits`, over the bits left, the first of which has index `i`.
pack_loop : ℕ → List Bool → Bytes → Bytes
pack_loop i [] out = out
pack_loop i (bit ∷ bits) out = pack_loop (i + 1) bits (if bit then set_bit out i else out)

unfoldable pub pack_bits : List Bool → Bytes
unfolding pack_loop set_bit
pack_bits bits = pack_loop 0 bits (replicate ((length bits + 7) / 8) 0)

-- `bool((data[i >> 3] >> (i & 7)) & 1)`
unfoldable pub bit_at : Bytes → ℕ → Bool
bit_at bytes i = (get_or bytes (i / 8) 0 / 2 ^ (i % 8)) % 2 == 1

-- The comprehension of `unpack_bits`: `count` bits from index `i`.
unpack_loop : Bytes → ℕ → ℕ → List Bool
unpack_loop bytes i zero = []
unpack_loop bytes i (suc count) = bit_at bytes i ∷ unpack_loop bytes (i + 1) count

unfoldable pub unpack_bits : Bytes → ℕ → Result (List Bool)
unfolding unpack_loop bit_at
unpack_bits bytes count =
    if ltb (length bytes * 8) count
    then err (modbus_error illegal_data_value none)
    else ok (unpack_loop bytes 0 count)
