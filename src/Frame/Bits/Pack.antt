-- ===== src/Frame/Bits/Pack.antt =====
-- The bytes that `pack_bits` returns, bit by bit.
use modbus_sim.Prelude.{
  ℕ, zero, ◌+◌, ◌*◌, ◌/◌, ◌%◌, ◌^◌, ◌≤◌, ◌<◌, bit_or, Bool, true, false, ◌&&◌, ◌||◌, List, [], ◌∷◌,
  ◌≡◌, refl, ap, ◌∙◌, inl, inr, arith, ◌==◌, Bool-cases, ==_iff, length, get_or, replicate,
  length-set, get_or-set_self, get_or-set_ne, length-replicate, get_or-replicate, All-set,
  All-get_or, All-replicate, IsByte, Bytes, IsBytes,
}
use modbus_sim.Frame.Bits.{set_bit, pack_loop, pack_bits, bit_at}
use modbus_sim.Frame.Bits.Table.{byte_bit, byte_bit-or, bit_or-lt}

-- The bit that the loop writes at index `j`, from the bits left and the index of the first.
abbrev pub wanted : ℕ → List Bool → ℕ → Bool
wanted i [] j = false
wanted i (bit ∷ bits) j = (i == j && bit) || wanted (i + 1) bits j

pub wanted_below : (i : ℕ) (bits : List Bool) (j : ℕ) → j < i → wanted i bits j ≡ false
wanted_below i [] j h = refl
wanted_below i (bit ∷ bits) j h = ground (arith, wanted_below (i + 1) bits j)

pub wanted_above :
    (i : ℕ) (bits : List Bool) (j : ℕ) → i + length bits ≤ j → wanted i bits j ≡ false
wanted_above i [] j h = refl
wanted_above i (bit ∷ bits) j h = ground (arith, wanted_above (i + 1) bits j)

length-set_bit : (out : Bytes) (i : ℕ) → length (set_bit out i) ≡ length out
unfolding set_bit
length-set_bit out i = length-set out _ _

set_bit-IsBytes : (out : Bytes) (i : ℕ) → IsBytes out → IsBytes (set_bit out i)
unfolding set_bit
set_bit-IsBytes out i h =
    All-set IsByte out _ _ (bit_or-lt _ _ (All-get_or IsByte out _ 0 (omega arith) h) (omega arith))
      h

==-mod : (i j : ℕ) → i / 8 ≡ j / 8 → (i % 8 == j % 8) ≡ (i == j)
==-mod i j e = ground arith

-- Setting bit `i` sets that bit and no other.
bit_at-set_bit :
    (out : Bytes) (i j : ℕ)
    → IsBytes out
    → i < 8 * length out
    → bit_at (set_bit out i) j ≡ (i == j || bit_at out j)
unfolding set_bit bit_at
bit_at-set_bit out i j h lt = elim (Bool-cases (i / 8 == j / 8)) [
  | inl same ↦
      let e : i / 8 ≡ j / 8 = (==_iff _ _).0 same in
      let at =
        get_or-set_self out (i / 8) (bit_or (get_or out (i / 8) 0) (2 ^ (i % 8))) 0 (omega arith) in
      rw
        (
          ← e,
          at,
          byte_bit-or (get_or out (i / 8) 0) (i % 8) (j % 8)
              (All-get_or IsByte out _ 0 (omega arith) h) (omega arith) (omega arith),
        )
        (ap (λ b. b || byte_bit (get_or out (i / 8) 0) (j % 8)) (==-mod i j e))
  | inr other ↦ rw (get_or-set_ne out (i / 8) (j / 8) _ 0 (ground arith)) (ground arith)
]

length-pack_loop :
    (i : ℕ) (bits : List Bool) (out : Bytes) → length (pack_loop i bits out) ≡ length out
unfolding pack_loop
length-pack_loop i [] out = refl
length-pack_loop i (true ∷ bits) out =
    length-pack_loop (i + 1) bits (set_bit out i) ∙ length-set_bit out i
length-pack_loop i (false ∷ bits) out = length-pack_loop (i + 1) bits out

pack_loop-IsBytes :
    (i : ℕ) (bits : List Bool) (out : Bytes) → IsBytes out → IsBytes (pack_loop i bits out)
unfolding pack_loop
pack_loop-IsBytes i [] out h = h
pack_loop-IsBytes i (true ∷ bits) out h =
    pack_loop-IsBytes (i + 1) bits (set_bit out i) (set_bit-IsBytes out i h)
pack_loop-IsBytes i (false ∷ bits) out h = pack_loop-IsBytes (i + 1) bits out h

-- The loop sets the bits that it is given, at their indices, and keeps the others.
bit_at-pack_loop :
    (i : ℕ) (bits : List Bool) (out : Bytes) (j : ℕ)
    → IsBytes out
    → i + length bits ≤ 8 * length out
    → bit_at (pack_loop i bits out) j ≡ (wanted i bits j || bit_at out j)
unfolding pack_loop
bit_at-pack_loop i [] out j h lt = refl
bit_at-pack_loop i (true ∷ bits) out j h lt =
    bit_at-pack_loop (i + 1) bits (set_bit out i) j (set_bit-IsBytes out i h)
      (omega (arith, length-set_bit out i))
    ∙ ground (arith, bit_at-set_bit out i j h (omega arith))
bit_at-pack_loop i (false ∷ bits) out j h lt =
    bit_at-pack_loop (i + 1) bits out j h (omega arith) ∙ ground arith

pub length-pack_bits : (bits : List Bool) → length (pack_bits bits) ≡ (length bits + 7) / 8
unfolding pack_bits
length-pack_bits bits = length-pack_loop 0 bits _ ∙ length-replicate _ _

pub pack_bits-IsBytes : (bits : List Bool) → IsBytes (pack_bits bits)
unfolding pack_bits
pack_bits-IsBytes bits = pack_loop-IsBytes 0 bits _ (All-replicate IsByte _ 0 (omega arith))

bit_at-replicate : (n j : ℕ) → bit_at (replicate n 0) j ≡ false
unfolding bit_at
bit_at-replicate n j = rw (get_or-replicate n (j / 8) zero) (ground arith)

pub bit_at-pack_bits : (bits : List Bool) (j : ℕ) → bit_at (pack_bits bits) j ≡ wanted 0 bits j
unfolding pack_bits
bit_at-pack_bits bits j =
    bit_at-pack_loop 0 bits _ j (All-replicate IsByte _ 0 (omega arith))
      (omega (arith, length-replicate ((length bits + 7) / 8) (zero)))
    ∙ ground (arith, bit_at-replicate ((length bits + 7) / 8) j)
