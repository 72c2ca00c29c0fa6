-- ===== src/Client/Receive.antt =====
-- What a client makes of the bytes that come back.
use modbus_sim.Prelude.{
  ℕ, ltb, take, drop, length-drop, Bool-cases, inl, inr, ◌≤◌, refl, ◌+◌, ◌-◌, ◌==◌, false, ◌<◌, ◌≡◌,
  refl, Option, [], ◌++◌, arith, length, length-append, ==_refl, ap, sym, ◌∙◌, append-nil, Bytes,
  take-append, drop-append,
}
use modbus_sim.Result.{◌>>=◌, Result, ok, bind-eq-ok, err, incomplete_read}
use modbus_sim.Frame.Mbap.{MbapHeader, decode_mbap}
use modbus_sim.Frame.Mbap.RoundTrip.{adu_header, header_bytes, decode_mbap-header_bytes}
use modbus_sim.Frame.Response.{Response, decode_response_pdu}
use modbus_sim.Client.{read_exactly, raise_exception, receive, on_header, on_pdu}

read_exactly-append :
    (xs ys : Bytes) (n : ℕ) → length xs ≡ n → read_exactly (xs ++ ys) n ≡ (ok xs, ys)
read_exactly-append xs ys n h =
    ground (arith, length-append xs ys, take-append n xs ys h, drop-append n xs ys h)

read_exactly_short :
    (xs : Bytes) (n : ℕ) → length xs < n → read_exactly xs n ≡ (err incomplete_read, [])
read_exactly_short xs n h = ground arith

on_header-adu :
    (tid unit_id : ℕ) (bit_count : Option ℕ) (pdu rest : Bytes) {response : Response}
    → decode_response_pdu pdu bit_count ≡ ok response
    → on_header tid bit_count (pdu ++ rest) (ok (adu_header tid unit_id pdu))
      ≡ (raise_exception response, rest)
on_header-adu tid unit_id bit_count pdu rest decoded =
    let positive : (1 + length pdu == 0) ≡ false = ground arith in
    let payload : 1 + length pdu - 1 ≡ length pdu = omega arith in
    rw (==_refl tid, positive, payload, read_exactly-append pdu rest (length pdu) refl)
      (ap (λ r. (r >>= raise_exception, rest)) decoded)

-- An ADU under the transaction id that was sent is taken off the bytes that came, whatever follows it,
-- and its PDU decoded.
pub receive-adu :
    (tid unit_id : ℕ) (bit_count : Option ℕ) (pdu rest : Bytes) {response : Response}
    → decode_response_pdu pdu bit_count ≡ ok response
    → receive tid bit_count (header_bytes (adu_header tid unit_id pdu) ++ pdu ++ rest)
      ≡ (raise_exception response, rest)
unfolding receive
receive-adu tid unit_id bit_count pdu rest decoded =
    let head = header_bytes (adu_header tid unit_id pdu) in
    rw
      (
        read_exactly-append head (pdu ++ rest) 7 refl,
        decode_mbap-header_bytes (adu_header tid unit_id pdu) [],
      )
      (on_header-adu tid unit_id bit_count pdu rest decoded)

-- An ADU alone.
pub receive_whole :
    (tid unit_id : ℕ) (bit_count : Option ℕ) (pdu : Bytes) {response : Response}
    → decode_response_pdu pdu bit_count ≡ ok response
    → receive tid bit_count (header_bytes (adu_header tid unit_id pdu) ++ pdu)
      ≡ (raise_exception response, [])
receive_whole tid unit_id bit_count pdu decoded =
    ap (λ rest. receive tid bit_count (header_bytes (adu_header tid unit_id pdu) ++ rest))
      (sym (append-nil pdu))
    ∙ receive-adu tid unit_id bit_count pdu [] decoded

raise_exception-eq-ok :
    (r : Response) {response : Response} → raise_exception r ≡ ok response → r ≡ response
raise_exception-eq-ok r h = ground arith

on_pdu-eq-ok :
    (bit_count : Option ℕ) (inbox rest : Bytes) (n : ℕ) {response : Response}
    → on_pdu bit_count (read_exactly inbox n) ≡ (ok response, rest)
    → (n ≤ length inbox)
      × (decode_response_pdu (take n inbox) bit_count ≡ ok response)
      × (rest ≡ drop n inbox)
on_pdu-eq-ok bit_count inbox rest n {response} h = elim (Bool-cases (ltb (length inbox) n)) [
  | inl short ↦ absurd (ground arith)
  | inr enough ↦
      let got : on_pdu bit_count (ok (take n inbox), drop n inbox) ≡ (ok response, rest) =
        rw enough at h in
      let (r, decoded, kept) =
        bind-eq-ok (decode_response_pdu (take n inbox) bit_count) raise_exception
          (ap (λ p. p.0) got) in
      (ground arith, decoded ∙ ap ok (raise_exception-eq-ok r kept), sym (ap (λ p. p.1) got))
]

-- What a client accepts as the response to its transaction.
pub record IsReceived (tid : ℕ) (bit_count : Option ℕ) (inbox : Bytes) (response : Response)
    (rest : Bytes) : Type 0 where
  pub header : MbapHeader
  pub head : decode_mbap (take 7 inbox) ≡ ok header
  pub echoed : header.transaction_id ≡ tid
  pub lower : 1 ≤ header.length
  pub arrived : 6 + header.length ≤ length inbox
  pub pdu : decode_response_pdu (take (header.length - 1) (drop 7 inbox)) bit_count ≡ ok response
  pub left : rest ≡ drop (header.length - 1) (drop 7 inbox)

on_header-eq-ok :
    (tid : ℕ) (bit_count : Option ℕ) (inbox rest : Bytes) (header : MbapHeader)
    {response : Response}
    → on_header tid bit_count inbox (ok header) ≡ (ok response, rest)
    → (header.transaction_id ≡ tid)
      × (1 ≤ header.length)
      × (on_pdu bit_count (read_exactly inbox (header.length - 1)) ≡ (ok response, rest))
on_header-eq-ok tid bit_count inbox rest header h = ground arith

received :
    (tid : ℕ) (bit_count : Option ℕ) (inbox rest : Bytes) {response : Response}
    (head : Result MbapHeader)
    → decode_mbap (take 7 inbox) ≡ head
    → 7 ≤ length inbox
    → on_header tid bit_count (drop 7 inbox) head ≡ (ok response, rest)
    → IsReceived tid bit_count inbox response rest
received tid bit_count inbox rest (err e) same long h = absurd (ground arith)
received tid bit_count inbox rest (ok header) same long h =
    let (echoed, lower, got) = on_header-eq-ok tid bit_count (drop 7 inbox) rest header h in
    let (enough, pdu, left) = on_pdu-eq-ok bit_count (drop 7 inbox) rest (header.length - 1) got in
    record {
      header = header;
      head = same;
      echoed = echoed;
      lower = lower;
      arrived = omega (arith, enough, lower, long, length-drop 7 inbox);
      pdu = pdu;
      left = left;
    }

-- A client returns a response only where the bytes that came begin with a header under the transaction
-- id that was sent, followed by as many bytes as the header counts, which decode to it; the bytes
-- after them are kept.
pub receive-eq-ok :
    (tid : ℕ) (bit_count : Option ℕ) (inbox rest : Bytes) {response : Response}
    → receive tid bit_count inbox ≡ (ok response, rest)
    → IsReceived tid bit_count inbox response rest
unfolding receive
receive-eq-ok tid bit_count inbox rest {response} h = elim (Bool-cases (ltb (length inbox) 7)) [
  | inl short ↦ absurd (ground arith)
  | inr enough ↦
      let got : on_header tid bit_count (drop 7 inbox) (decode_mbap (take 7 inbox))
          ≡ (ok response, rest) =
        rw enough at h in
      received tid bit_count inbox rest (decode_mbap (take 7 inbox)) refl (ground arith) got
]
