-- ===== src/Server/Log.antt =====
-- What modbus_sim/server.py logs of a frame: `_fmt_peer`, `_log_request` and the lines of `_process_frame`. A line is its
-- level and its fields; times are left out.
pub mod Logged
use Prim.Native.String.{String}
use Prim.Native.String as Text
use modbus_sim.Prelude.{
  ℕ, ◌+◌, ◌*◌, Bool, false, ◌||◌, not, Option, none, some, [], ◌∷◌, ◌==◌, leb, if◌then◌else◌,
  length, take, drop, Bytes,
}
use modbus_sim.Result.{Result, ok, err, index_error, ◌>>=◌}
use modbus_sim.Frame.Constants.{
  mbap_header_len, protocol_id, read_coils, read_discrete_inputs, read_holding_registers,
  read_input_registers, write_multiple_coils, write_multiple_registers,
}
use modbus_sim.Frame.Mbap.{MbapHeader}
use modbus_sim.Frame.Response.{is_exception, second_byte}
use modbus_sim.Datastore.Device.{Device}
use modbus_sim.Datastore.Store.{DataStore, get}
use modbus_sim.Dispatcher.{process_pdu}

-- A peer's name: a tuple whose first two members have these texts, or the text of something else.
pub data Peer : Type 0 where
  pair : (host port : String) → Peer
  other : String → Peer

unfoldable pub fmt_peer : Peer → String
fmt_peer (pair host port) = Text.◌++◌ host (Text.◌++◌ ":" port)
fmt_peer (other text) = text

-- `int.from_bytes(…, "big")`, onto what was read before.
abbrev pub from_bytes : ℕ → Bytes → ℕ
from_bytes value [] = value
from_bytes value (b ∷ bs) = from_bytes (value * 256 + b) bs

-- `_QTY_FCS`
unfoldable pub has_quantity : ℕ → Bool
has_quantity fc =
    fc == read_coils
    || fc == read_discrete_inputs
    || fc == read_holding_registers
    || fc == read_input_registers
    || fc == write_multiple_coils
    || fc == write_multiple_registers

-- The label of the second number of a request, with the number.
pub data Amount : Type 0 where
  qty val : ℕ → Amount

pub record Fields : Type 0 where
  pub peer : String
  pub unit_id : ℕ
  pub fc : ℕ
  pub addr : Option ℕ
  pub amount : Option Amount

-- `pdu[0] if pdu else 0`
abbrev pub first_or_zero : Bytes → ℕ
first_or_zero [] = 0
first_or_zero (b ∷ bs) = b

unfoldable pub fields_of : Peer → MbapHeader → Bytes → Fields
unfolding fmt_peer has_quantity
fields_of peer header pdu =
    let fc = first_or_zero pdu in
    let number = from_bytes 0 (take 2 (drop 3 pdu)) in
    record {
      peer = fmt_peer peer;
      unit_id = header.unit_id;
      fc = fc;
      addr = if leb 3 (length pdu) then some (from_bytes 0 (take 2 (drop 1 pdu))) else none;
      amount =
          if leb 5 (length pdu)
          then some (if has_quantity fc then qty number else val number)
          else none;
    }

-- A line of the log: a warning with the exception code, or the length of the response; or why a frame was
-- dropped.
pub data LogLine : Type 0 where
  req_exception : Fields → (code : ℕ) → LogLine
  req_ok : Fields → (bytes : ℕ) → LogLine
  drop_protocol : (peer : String) (protocol : ℕ) → LogLine
  drop_unit : (peer : String) (unit_id : ℕ) → LogLine

abbrev pub is_refusal : Bytes → Bool
is_refusal [] = false
is_refusal (fc ∷ rest) = is_exception fc

-- `_log_request`
unfoldable pub log_request : Peer → MbapHeader → Bytes → Bytes → Result LogLine
unfolding fields_of
log_request peer header pdu response_pdu =
    if is_refusal response_pdu
    then (do code ← second_byte response_pdu; ok (req_exception (fields_of peer header pdu) code))
    else ok (req_ok (fields_of peer header pdu) (length response_pdu))

log_served : Peer → MbapHeader → Bytes → Option Device → Result LogLine
unfolding log_request
log_served peer header pdu none = ok (drop_unit (fmt_peer peer) header.unit_id)
log_served peer header pdu (some device) = do
  response_pdu ← (process_pdu device pdu).0
  log_request peer header pdu response_pdu

-- The line that `_process_frame` logs.
unfoldable pub process_frame_log : Peer → MbapHeader → Bytes → DataStore → Result LogLine
unfolding log_served
process_frame_log peer header adu store =
    if not (header.protocol_id == protocol_id)
    then ok (drop_protocol (fmt_peer peer) header.protocol_id)
    else log_served peer header (drop mbap_header_len adu) (get store header.unit_id)
