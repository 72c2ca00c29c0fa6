-- ===== src/Frame/Registers/RoundTrip.antt =====
-- `pack_registers` and `unpack_registers` one after the other.
use modbus_sim.Prelude.{
  ℕ, ◌*◌, ◌%◌, ◌≡◌, inl, inr, refl, arith, ltb, Bool-cases, List, [], ◌∷◌, length, Bytes, IsBytes,
  IsWords, be16, hi8, lo8,
}
use modbus_sim.Result.{ok, bind-eq-ok}
use modbus_sim.Frame.Struct.{pack_words, unpack_words}
use modbus_sim.Frame.Registers.{pack_registers, unpack_registers}

-- The bytes of a list of words, the high byte of each first.
abbrev pub word_bytes : List ℕ → Bytes
word_bytes [] = []
word_bytes (x ∷ xs) = hi8 x ∷ lo8 x ∷ word_bytes xs

pub length-word_bytes : (xs : List ℕ) → length (word_bytes xs) ≡ 2 * length xs
length-word_bytes [] = omega arith
length-word_bytes (x ∷ xs) = omega (arith, length-word_bytes xs)

pub word_bytes-IsBytes : (xs : List ℕ) → IsWords xs → IsBytes (word_bytes xs)
word_bytes-IsBytes [] h = tt
word_bytes-IsBytes (x ∷ xs) h = (omega arith, (omega arith, word_bytes-IsBytes xs h.1))

pub pack_registers_lem : (xs : List ℕ) → IsWords xs → pack_registers xs ≡ ok (word_bytes xs)
unfolding pack_registers
pack_registers_lem [] h = refl
pack_registers_lem (x ∷ xs) h = ground (arith, pack_registers_lem xs h.1)

-- Packing succeeds only on 16-bit values, and then gives two bytes for each.
pub pack_registers-eq-ok :
    (xs : List ℕ) {bytes : Bytes}
    → pack_registers xs ≡ ok bytes
    → IsWords xs × (bytes ≡ word_bytes xs)
unfolding pack_registers
pack_registers-eq-ok [] h = (tt, ground arith)
pack_registers-eq-ok (x ∷ xs) h = elim (Bool-cases (ltb x 65536)) [
  | inl fits ↦
      let (rest, packed, e) = bind-eq-ok (pack_words xs) _ h in
      let (words, same) = pack_registers-eq-ok xs packed in ((ground arith, words), ground arith)
  | inr big ↦ let (rest, packed, e) = bind-eq-ok (pack_words xs) _ h in absurd (ground arith)
]

unpack_words-word_bytes : (xs : List ℕ) → IsWords xs → unpack_words (word_bytes xs) ≡ ok xs
unfolding unpack_words
unpack_words-word_bytes [] h = refl
unpack_words-word_bytes (x ∷ xs) h =
    let word : be16 (hi8 x) (lo8 x) ≡ x = omega arith in rw (unpack_words-word_bytes xs h.1, word)

pub unpack_registers-word_bytes :
    (xs : List ℕ) → IsWords xs → unpack_registers (word_bytes xs) ≡ ok xs
unfolding unpack_registers
unpack_registers-word_bytes xs h =
    let even : length (word_bytes xs) % 2 ≡ 0 = omega (arith, length-word_bytes xs) in
    rw (even, unpack_words-word_bytes xs h)

-- Unpacking what was packed gives the registers back.
pub unpack_registers-pack_registers :
    (xs : List ℕ) {bytes : Bytes} → pack_registers xs ≡ ok bytes → unpack_registers bytes ≡ ok xs
unpack_registers-pack_registers xs h =
    let (words, same) = pack_registers-eq-ok xs h in rw same (unpack_registers-word_bytes xs words)

unpack_words_lem :
    (bytes : Bytes) {xs : List ℕ}
    → IsBytes bytes
    → unpack_words bytes ≡ ok xs
    → IsWords xs × (word_bytes xs ≡ bytes)
unfolding unpack_words
unpack_words_lem [] hb h = ground arith
unpack_words_lem (a ∷ []) hb h = cc
unpack_words_lem (a ∷ b ∷ rest) {xs} hb h =
    let (words, unpacked, e) = bind-eq-ok (unpack_words rest) _ h in
    let (fits, same) = unpack_words_lem rest hb.1.1 unpacked in
    let whole : xs ≡ be16 a b ∷ words = ground arith in
    rw whole (
      (omega arith, fits),
      let hi : hi8 (be16 a b) ≡ a = omega arith in
          let lo : lo8 (be16 a b) ≡ b = omega arith in rw (hi, lo, same),
    )

-- What `unpack_registers` returns are 16-bit values, and packing them gives the bytes back.
pub pack_registers-unpack_registers :
    (bytes : Bytes) {xs : List ℕ}
    → IsBytes bytes
    → unpack_registers bytes ≡ ok xs
    → IsWords xs × (word_bytes xs ≡ bytes)
unfolding unpack_registers
pack_registers-unpack_registers bytes hb h = unpack_words_lem bytes hb (ground arith)

unpack_words_total :
    (bytes : Bytes) → length bytes % 2 ≡ 0 → (xs : List ℕ) × (unpack_words bytes ≡ ok xs)
unfolding unpack_words
unpack_words_total [] h = ([], refl)
unpack_words_total (a ∷ []) h = absurd (omega arith)
unpack_words_total (a ∷ b ∷ rest) h =
    let (xs, e) = unpack_words_total rest (omega arith) in (be16 a b ∷ xs, rw e)

pub unpack_registers_total :
    (bytes : Bytes) → length bytes % 2 ≡ 0 → (xs : List ℕ) × (unpack_registers bytes ≡ ok xs)
unfolding unpack_registers
unpack_registers_total bytes h = let (xs, e) = unpack_words_total bytes h in (xs, rw (h, e))
