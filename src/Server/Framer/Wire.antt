-- ===== src/Server/Framer/Wire.antt =====
-- `feed` on the ADUs that `build_adu` wrote, one after the other.
use modbus_sim.Prelude.{
  ℕ, ◌≤◌, ◌≡◌, refl, ap, none, List, [], ◌∷◌, ◌++◌, map, arith, length, Bytes, All,
}
use modbus_sim.Result.{Result, ok, ◌>>=◌, bind-eq-ok, ok_injective}
use modbus_sim.Frame.Mbap.{MbapHeader, build_adu}
use modbus_sim.Frame.Mbap.RoundTrip.{
  adu_header, header_bytes, build_adu-eq-ok, decode_mbap-header_bytes,
}
use modbus_sim.Server.Framer.{Item, next_frame, feed, yielded}
use modbus_sim.Server.Framer.Step.{IsCut, IsCut-next_frame}
use modbus_sim.Server.Framer.Loop.{drain, drain_lem, feed-drain}

pub record Message : Type 0 where
  pub transaction_id : ℕ
  pub unit_id : ℕ
  pub pdu : Bytes

-- The length field of the message is one that the framer accepts.
abbrev pub IsFramable : Message → Type 0
IsFramable m = (1 ≤ length m.pdu) × (length m.pdu ≤ 259)

-- What a sender writes for the messages.
unfoldable pub send_all : List Message → Result Bytes
send_all [] = ok []
send_all (m ∷ ms) = do
  adu ← build_adu m.transaction_id m.unit_id m.pdu
  rest ← send_all ms
  ok (adu ++ rest)

abbrev pub header_for : Message → MbapHeader
header_for m = adu_header m.transaction_id m.unit_id m.pdu

abbrev pub item_for : Message → Item
item_for m = (header_for m, header_bytes (header_for m) ++ m.pdu)

item-IsCut :
    (m : Message) (rest : Bytes) → IsFramable m → IsCut ((item_for m).1 ++ rest) (item_for m) rest
item-IsCut m rest f = record {
  header = decode_mbap-header_bytes (header_for m) (m.pdu ++ rest);
  lower = omega arith;
  upper = omega arith;
  splits = refl;
  size = omega arith;
}

drain-send_all :
    (ms : List Message) {bytes : Bytes}
    → All IsFramable ms
    → send_all ms ≡ ok bytes
    → drain bytes ≡ record { frames = map item_for ms; buffer = []; raised = none }
unfolding send_all
drain-send_all [] f h = rw (← ok_injective h, drain_lem) (unfold next_frame in refl)
drain-send_all (m ∷ ms) f h =
    let (adu, built, later) = bind-eq-ok (build_adu m.transaction_id m.unit_id m.pdu) _ h in
    let (rest, sent, e) = bind-eq-ok (send_all ms) _ later in
    let (fits, same) = build_adu-eq-ok m.transaction_id m.unit_id m.pdu built in
    rw
      (
        ← ok_injective e,
        same,
        drain_lem,
        IsCut-next_frame ((item_for m).1 ++ rest) (item_for m) rest (item-IsCut m rest f.0),
      )
      (ap (yielded (item_for m)) (drain-send_all ms f.1 sent))

-- The messages that a sender writes are yielded in order, each with its header, and nothing is left.
pub feed-send_all :
    (ms : List Message) {bytes : Bytes}
    → All IsFramable ms
    → send_all ms ≡ ok bytes
    → feed [] bytes ≡ record { frames = map item_for ms; buffer = []; raised = none }
feed-send_all ms f h = rw feed-drain (drain-send_all ms f h)
