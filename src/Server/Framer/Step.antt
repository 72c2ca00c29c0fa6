-- ===== src/Server/Framer/Step.antt =====
-- One call of `_next_frame`.
use modbus_sim.Prelude.{
  ℕ, ◌+◌, ◌<◌, ◌≤◌, ◌≡◌, refl, ap, ◌∙◌, false, none, some, ◌∷◌, ◌++◌, arith, ltb, length, take,
  drop, Bytes, take-append-drop, take-append, drop-append, append_assoc, ◌⊎◌, length-append,
  length-take, Bool-cases, inl, inr,
}
use modbus_sim.Result.{Exception, ok, err, protocol_error, bind-eq-ok}
use modbus_sim.Frame.Mbap.{MbapHeader, decode_mbap}
use modbus_sim.Frame.Mbap.RoundTrip.{decode_mbap_total}
use modbus_sim.Server.Framer.{Item, cut, next_frame}

-- What a frame that was cut off the buffer looks like.
pub record IsCut (buffer : Bytes) (item : Item) (rest : Bytes) : Type 0 where
  pub header : decode_mbap buffer ≡ ok item.0
  pub lower : 2 ≤ item.0.length
  pub upper : item.0.length ≤ 260
  pub splits : buffer ≡ item.1 ++ rest
  pub size : length item.1 ≡ 6 + item.0.length

-- A prefix that holds a whole header decides it.
pub decode_mbap-append :
    (buffer more : Bytes) → 7 ≤ length buffer → decode_mbap (buffer ++ more) ≡ decode_mbap buffer
unfolding decode_mbap
decode_mbap-append (a ∷ b ∷ c ∷ d ∷ e ∷ f ∷ g ∷ rest) more h = ground arith
decode_mbap-append _ more h = absurd (omega arith)

cut-IsCut :
    (buffer : Bytes) (h : MbapHeader) (item : Item) (rest : Bytes)
    → decode_mbap buffer ≡ ok h
    → cut buffer h ≡ ok (some (item, rest))
    → IsCut buffer item rest
unfolding cut
cut-IsCut buffer h item rest e c =
    ground (arith, take-append-drop (6 + h.length) buffer, length-take (6 + h.length) buffer)

-- A call of `_next_frame` that returns a frame cuts it off the front of the buffer.
pub next_frame-IsCut :
    (buffer : Bytes) (item : Item) (rest : Bytes)
    → next_frame buffer ≡ ok (some (item, rest))
    → IsCut buffer item rest
unfolding next_frame
next_frame-IsCut buffer item rest h = elim (Bool-cases (ltb (length buffer) 7)) [
  | inl short ↦ absurd (ground arith)
  | inr long ↦
      let (header, decoded, later) = bind-eq-ok (decode_mbap buffer) _ (rw long at h) in
      cut-IsCut buffer header item rest decoded later
]

-- The converse: a buffer that begins with such a frame yields it.
pub IsCut-next_frame :
    (buffer : Bytes) (item : Item) (rest : Bytes)
    → IsCut buffer item rest
    → next_frame buffer ≡ ok (some (item, rest))
unfolding next_frame
IsCut-next_frame buffer (h, adu) rest c =
    let taken : take (6 + h.length) buffer ≡ adu =
      rw c.splits (take-append (6 + h.length) adu rest c.size) in
    let dropped : drop (6 + h.length) buffer ≡ rest =
      rw c.splits (drop-append (6 + h.length) adu rest c.size) in
    let size : length buffer ≡ 6 + h.length + length rest =
      omega (arith, ap length c.splits, length-append adu rest, c.size) in
    let long : ltb (length buffer) 7 ≡ false = ground (arith, c.lower) in
    rw (long, c.header) (ground (arith, c.lower, c.upper))

IsCut-append :
    (buffer more : Bytes) (item : Item) (rest : Bytes)
    → IsCut buffer item rest
    → IsCut (buffer ++ more) item (rest ++ more)
IsCut-append buffer more item rest c =
    let size : length buffer ≡ length item.1 + length rest =
      omega (arith, ap length c.splits, length-append item.1 rest) in
    record {
      header = decode_mbap-append buffer more (omega (arith, c.size, c.lower)) ∙ c.header;
      lower = c.lower;
      upper = c.upper;
      splits = ap (λ b. b ++ more) c.splits ∙ append_assoc item.1 rest more;
      size = c.size;
    }

-- Bytes that arrive later change no frame that is complete.
pub next_frame-append :
    (buffer more : Bytes) (item : Item) (rest : Bytes)
    → next_frame buffer ≡ ok (some (item, rest))
    → next_frame (buffer ++ more) ≡ ok (some (item, rest ++ more))
next_frame-append buffer more item rest h =
    IsCut-next_frame (buffer ++ more) item (rest ++ more)
      (IsCut-append buffer more item rest (next_frame-IsCut buffer item rest h))

-- A length field that is refused.
pub record IsBad (buffer : Bytes) (n : ℕ) : Type 0 where
  pub head : MbapHeader
  pub header : decode_mbap buffer ≡ ok head
  pub long : 7 ≤ length buffer
  pub reported : head.length ≡ n
  pub outside : (n < 2) ⊎ (260 < n)

cut-IsBad :
    (buffer : Bytes) (h : MbapHeader) (e : Exception)
    → 7 ≤ length buffer
    → decode_mbap buffer ≡ ok h
    → cut buffer h ≡ err e
    → (e ≡ protocol_error h.length) × IsBad buffer h.length
unfolding cut
cut-IsBad buffer h e l d c = (
  ground arith,
  record { head = h; header = d; long = l; reported = refl; outside = ground arith },
)

-- `_next_frame` raises nothing but `ProtocolError`, for a length field out of range.
pub next_frame-eq-err :
    (buffer : Bytes) (e : Exception)
    → next_frame buffer ≡ err e
    → (n : ℕ) × (e ≡ protocol_error n) × IsBad buffer n
unfolding next_frame
next_frame-eq-err buffer e h = elim (Bool-cases (ltb (length buffer) 7)) [
  | inl short ↦ absurd (ground arith)
  | inr long ↦
      let (header, decoded) = decode_mbap_total buffer (ground arith) in
      let later : cut buffer header ≡ err e = rw (long, decoded) at h in
      let (same, bad) = cut-IsBad buffer header e (ground arith) decoded later in
      (header.length, same, bad)
]

pub IsBad-next_frame :
    (buffer : Bytes) (n : ℕ) → IsBad buffer n → next_frame buffer ≡ err (protocol_error n)
unfolding next_frame
IsBad-next_frame buffer n b =
    let long : ltb (length buffer) 7 ≡ false = ground (arith, b.long) in
    rw (long, b.header) (ground (arith, b.reported, b.outside))

pub next_frame_bad-append :
    (buffer more : Bytes) (n : ℕ)
    → IsBad buffer n
    → next_frame (buffer ++ more) ≡ err (protocol_error n)
next_frame_bad-append buffer more n b = IsBad-next_frame (buffer ++ more) n (record {
  head = b.head;
  header = decode_mbap-append buffer more b.long ∙ b.header;
  long = omega (arith, b.long, length-append buffer more);
  reported = b.reported;
  outside = b.outside;
})

-- A buffer that holds no complete frame is shorter than the longest frame.
pub next_frame-eq-none : (buffer : Bytes) → next_frame buffer ≡ ok none → length buffer < 266
unfolding next_frame
next_frame-eq-none buffer h = elim (Bool-cases (ltb (length buffer) 7)) [
  | inl short ↦ ground arith
  | inr long ↦
      let (header, decoded, later) = bind-eq-ok (decode_mbap buffer) _ (rw long at h) in
      ground arith
]
