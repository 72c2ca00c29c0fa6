-- ===== src/Frame/Bits/RoundTrip.antt =====
-- `pack_bits` and `unpack_bits` one after the other.
use modbus_sim.Prelude.{
  ◌*◌, ℕ, zero, suc, ◌+◌, ◌/◌, ◌%◌, ◌≤◌, ◌<◌, Bool, false, ◌&&◌, List, [], ◌∷◌, ◌≡◌, refl, sym, ap,
  ap₂, ◌∙◌, inl, inr, arith, ltb, ◌==◌, Bool-cases, length, Bytes, IsBytes,
}
use modbus_sim.Result.{ok}
use modbus_sim.Frame.Bits.{pack_bits, bit_at, unpack_loop, unpack_bits}
use modbus_sim.Frame.Bits.Table.{byte_bit, byte_ext}
use modbus_sim.Frame.Bits.Pack.{
  wanted, wanted_below, length-pack_bits, pack_bits-IsBytes, bit_at-pack_bits,
}

length-unpack_loop : (bytes : Bytes) (i n : ℕ) → length (unpack_loop bytes i n) ≡ n
unfolding unpack_loop
length-unpack_loop bytes i zero = refl
length-unpack_loop bytes i (suc n) = ap suc (length-unpack_loop bytes (i + 1) n)

-- What `unpack_bits` returns has the length that was asked for.
pub length-unpack_bits :
    (bytes : Bytes) (n : ℕ) {bits : List Bool} → unpack_bits bytes n ≡ ok bits → length bits ≡ n
unfolding unpack_bits
length-unpack_bits bytes n h = ground (arith, length-unpack_loop bytes 0 n)

-- Unpacking succeeds where there are enough bytes.
pub unpack_bits_total :
    (bytes : Bytes) (n : ℕ)
    → n ≤ length bytes * 8
    → (bits : List Bool) × (unpack_bits bytes n ≡ ok bits)
unfolding unpack_bits
unpack_bits_total bytes n h = (unpack_loop bytes 0 n, ground arith)

unpack_loop-wanted :
    (bytes : Bytes) (i : ℕ) (bits : List Bool)
    → ((j : ℕ) → i ≤ j → bit_at bytes j ≡ wanted i bits j)
    → unpack_loop bytes i (length bits) ≡ bits
unfolding unpack_loop
unpack_loop-wanted bytes i [] h = refl
unpack_loop-wanted bytes i (bit ∷ bits) h =
    let rest = unpack_loop-wanted bytes (i + 1) bits (λ j lt. ground (arith, h j)) in
    let first : bit_at bytes i ≡ bit = ground (arith, h i, wanted_below (i + 1) bits i) in
    rw (rest, first)

-- Unpacking what was packed gives the bits back.
pub unpack_bits-pack_bits :
    (bits : List Bool) → unpack_bits (pack_bits bits) (length bits) ≡ ok bits
unfolding unpack_bits
unpack_bits-pack_bits bits =
    let loop = unpack_loop-wanted (pack_bits bits) 0 bits (λ j h. bit_at-pack_bits bits j) in
    ground (arith, loop, length-pack_bits bits)

wanted-unpack_loop :
    (bytes : Bytes) (i n j : ℕ)
    → i ≤ j
    → wanted i (unpack_loop bytes i n) j ≡ (ltb j (i + n) && bit_at bytes j)
unfolding unpack_loop
wanted-unpack_loop bytes i zero j h = ground arith
wanted-unpack_loop bytes i (suc n) j h = elim (Bool-cases (i == j)) [
  | inl here ↦
      rw (wanted_below (i + 1) (unpack_loop bytes (i + 1) n) j (ground arith), here) (ground arith)
  | inr there ↦ rw there (wanted-unpack_loop bytes (i + 1) n j (ground arith) ∙ ground arith)
]

bit_at-head : (x : ℕ) (xs : Bytes) (m : ℕ) → m < 8 → bit_at (x ∷ xs) m ≡ byte_bit x m
unfolding bit_at
bit_at-head x xs m h =
    let q : m / 8 ≡ 0 = omega arith in let r : m % 8 ≡ m = omega arith in rw (q, r)

bit_at-tail : (x : ℕ) (xs : Bytes) (j : ℕ) → bit_at (x ∷ xs) (j + 8) ≡ bit_at xs j
unfolding bit_at
bit_at-tail x xs j =
    let q : (j + 8) / 8 ≡ suc (j / 8) = omega arith in
    let r : (j + 8) % 8 ≡ j % 8 = omega arith in rw (q, r)

-- Byte strings of one length with the same bits are equal.
bytes_ext :
    (xs ys : Bytes)
    → IsBytes xs
    → IsBytes ys
    → length xs ≡ length ys
    → ((j : ℕ) → bit_at xs j ≡ bit_at ys j)
    → xs ≡ ys
bytes_ext [] [] hx hy l h = refl
bytes_ext [] (y ∷ ys) hx hy l h = absurd (omega arith)
bytes_ext (x ∷ xs) [] hx hy l h = absurd (omega arith)
bytes_ext (x ∷ xs) (y ∷ ys) hx hy l h =
    ap₂ ◌∷◌
      (byte_ext x y hx.0 hy.0 (λ m lt. sym (bit_at-head x xs m lt) ∙ h m ∙ bit_at-head y ys m lt))
      (bytes_ext xs ys hx.1 hy.1 (omega arith)
        (λ j. sym (bit_at-tail x xs j) ∙ h (j + 8) ∙ bit_at-tail y ys j))

-- Packing what was unpacked gives the bytes back, if the bits past the count are clear.
pub pack_bits-unpack_bits :
    (bytes : Bytes) (n : ℕ) {bits : List Bool}
    → IsBytes bytes
    → length bytes ≡ (n + 7) / 8
    → ((j : ℕ) → n ≤ j → bit_at bytes j ≡ false)
    → unpack_bits bytes n ≡ ok bits
    → pack_bits bits ≡ bytes
unfolding unpack_bits
pack_bits-unpack_bits bytes n {bits} hb l clear e =
    let same : bits ≡ unpack_loop bytes 0 n = ground arith in
    rw same (
      bytes_ext (pack_bits (unpack_loop bytes 0 n)) bytes (pack_bits-IsBytes _) hb
        (omega (arith, length-pack_bits (unpack_loop bytes 0 n), length-unpack_loop bytes 0 n))
        (λ j.
          bit_at-pack_bits _ j
          ∙ wanted-unpack_loop bytes 0 n j (omega arith)
          ∙ ground (arith, clear j)))
