-- ===== src/Frame/Mbap/RoundTrip.antt =====
-- `decode_mbap` and `encode_mbap` one after the other, and what `build_adu` puts on the wire.
use modbus_sim.Prelude.{
  ℕ, ◌+◌, ◌<◌, ◌≤◌, ◌≡◌, refl, arith, [], ◌∷◌, ◌++◌, length, take, drop, Bytes, IsBytes, be16, hi8,
  lo8,
}
use modbus_sim.Result.{ok}
use modbus_sim.Frame.Constants.{mbap_header_len}
use modbus_sim.Frame.Mbap.{MbapHeader, decode_mbap, encode_mbap, build_adu}

-- The fields fit the wire format.
pub record IsEncodable (h : MbapHeader) : Type 0 where
  pub transaction_id : h.transaction_id < 65536
  pub protocol_id : h.protocol_id < 65536
  pub length : h.length < 65536
  pub unit_id : h.unit_id < 256

-- The seven bytes of a header.
abbrev pub header_bytes : MbapHeader → Bytes
header_bytes h =
    hi8 h.transaction_id
    ∷ lo8 h.transaction_id
    ∷ hi8 h.protocol_id
    ∷ lo8 h.protocol_id
    ∷ hi8 h.length
    ∷ lo8 h.length
    ∷ h.unit_id
    ∷ []

pub header_bytes-IsBytes : (h : MbapHeader) → IsEncodable h → IsBytes (header_bytes h)
header_bytes-IsBytes h fits = omega arith

pub encode_mbap_lem : (h : MbapHeader) → IsEncodable h → encode_mbap h ≡ ok (header_bytes h)
unfolding encode_mbap
encode_mbap_lem h fits = ground arith

pub encode_mbap-eq-ok :
    (h : MbapHeader) {bytes : Bytes}
    → encode_mbap h ≡ ok bytes
    → IsEncodable h × (bytes ≡ header_bytes h)
unfolding encode_mbap
encode_mbap-eq-ok h e = ground arith

be16-hi8-lo8 : (x : ℕ) → be16 (hi8 x) (lo8 x) ≡ x
be16-hi8-lo8 x = omega arith

pub decode_mbap-header_bytes :
    (h : MbapHeader) (rest : Bytes) → decode_mbap (header_bytes h ++ rest) ≡ ok h
unfolding decode_mbap
decode_mbap-header_bytes h rest = ground (arith, be16-hi8-lo8 h.transaction_id)

-- A header that was encoded is decoded again, whatever follows it on the wire.
pub decode_mbap-encode_mbap :
    (h : MbapHeader) (rest : Bytes) {bytes : Bytes}
    → encode_mbap h ≡ ok bytes
    → decode_mbap (bytes ++ rest) ≡ ok h
decode_mbap-encode_mbap h rest e = rw (encode_mbap-eq-ok h e).1 (decode_mbap-header_bytes h rest)

-- A header that was decoded from bytes is encoded to the first seven of them.
pub encode_mbap-decode_mbap :
    (bytes : Bytes) {h : MbapHeader}
    → IsBytes bytes
    → decode_mbap bytes ≡ ok h
    → encode_mbap h ≡ ok (take mbap_header_len bytes)
unfolding decode_mbap encode_mbap
encode_mbap-decode_mbap (a ∷ b ∷ c ∷ d ∷ e ∷ f ∷ g ∷ rest) hb h = ground arith
encode_mbap-decode_mbap _ hb h = ground arith

-- Decoding a header fails only for want of bytes.
pub decode_mbap_total :
    (bytes : Bytes) → mbap_header_len ≤ length bytes → (h : MbapHeader) × (decode_mbap bytes ≡ ok h)
unfolding decode_mbap
decode_mbap_total (a ∷ b ∷ c ∷ d ∷ e ∷ f ∷ g ∷ rest) le = (
  record { transaction_id = be16 a b; protocol_id = be16 c d; length = be16 e f; unit_id = g },
  ground arith,
)
decode_mbap_total _ le = absurd (ground arith)

pub decode_mbap-IsEncodable :
    (bytes : Bytes) {h : MbapHeader} → IsBytes bytes → decode_mbap bytes ≡ ok h → IsEncodable h
unfolding decode_mbap
decode_mbap-IsEncodable (a ∷ b ∷ c ∷ d ∷ e ∷ f ∷ g ∷ rest) hb h = ground arith
decode_mbap-IsEncodable _ hb h = ground arith

-- The header of an ADU with this transaction id, unit and PDU.
abbrev pub adu_header : ℕ → ℕ → Bytes → MbapHeader
adu_header transaction_id unit_id pdu = record {
  transaction_id = transaction_id;
  protocol_id = 0;
  length = 1 + length pdu;
  unit_id = unit_id;
}

pub build_adu_lem :
    (transaction_id unit_id : ℕ) (pdu : Bytes)
    → IsEncodable (adu_header transaction_id unit_id pdu)
    → build_adu transaction_id unit_id pdu
      ≡ ok (header_bytes (adu_header transaction_id unit_id pdu) ++ pdu)
unfolding build_adu
build_adu_lem t u pdu fits = ground arith

pub build_adu-eq-ok :
    (transaction_id unit_id : ℕ) (pdu : Bytes) {adu : Bytes}
    → build_adu transaction_id unit_id pdu ≡ ok adu
    → IsEncodable (adu_header transaction_id unit_id pdu)
      × (adu ≡ header_bytes (adu_header transaction_id unit_id pdu) ++ pdu)
unfolding build_adu
build_adu-eq-ok t u pdu e = ground arith

-- An ADU that `build_adu` returns decodes to a header with the ids given, the Modbus protocol id
-- and a length field that counts the unit id and the PDU; the PDU follows the header.
pub decode_mbap-build_adu :
    (transaction_id unit_id : ℕ) (pdu : Bytes) {adu : Bytes}
    → build_adu transaction_id unit_id pdu ≡ ok adu
    → (decode_mbap adu ≡ ok (adu_header transaction_id unit_id pdu))
      × (drop mbap_header_len adu ≡ pdu)
      × (length adu ≡ 6 + (1 + length pdu))
decode_mbap-build_adu t u pdu e =
    let (fits, same) = build_adu-eq-ok t u pdu e in
    rw same (decode_mbap-header_bytes (adu_header t u pdu) pdu, refl, omega arith)
