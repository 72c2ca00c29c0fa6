-- ===== src/Frame/Mbap.antt =====
-- `MBAPHeader`, `decode_mbap`, `encode_mbap` and `build_adu` of modbus_sim/frame.py.
pub mod RoundTrip
use modbus_sim.Prelude.{ℕ, ◌+◌, ◌++◌, ltb, if◌then◌else◌, length, take, Bytes}
use modbus_sim.Result.{Result, ok, err, value_error, ◌>>=◌}
use modbus_sim.Frame.Constants.{mbap_header_len, protocol_id}
use modbus_sim.Frame.Struct.{pack_hhhb, unpack_hhhb}

pub record MbapHeader : Type 0 where
  pub transaction_id : ℕ
  pub protocol_id : ℕ
  pub length : ℕ
  pub unit_id : ℕ

abbrev header_of : ℕ × ℕ × ℕ × ℕ → MbapHeader
header_of (a, b, c, d) = record { transaction_id = a; protocol_id = b; length = c; unit_id = d }

unfoldable pub decode_mbap : Bytes → Result MbapHeader
unfolding unpack_hhhb
decode_mbap bytes =
    if ltb (length bytes) mbap_header_len
    then err value_error
    else do fields ← unpack_hhhb (take mbap_header_len bytes); ok (header_of fields)

unfoldable pub encode_mbap : MbapHeader → Result Bytes
unfolding pack_hhhb
encode_mbap h = pack_hhhb h.transaction_id h.protocol_id h.length h.unit_id

unfoldable pub build_adu : ℕ → ℕ → Bytes → Result Bytes
unfolding pack_hhhb
build_adu transaction_id unit_id pdu = do
  let len = 1 + length pdu
  header ← pack_hhhb transaction_id protocol_id len unit_id
  ok (header ++ pdu)
