-- ===== src/Frame/Bits/Table.antt =====
-- What `|=` does to the bits of one byte, checked at every byte.
use modbus_sim.Prelude.{
  ℕ, ◌/◌, ◌%◌, ◌^◌, ◌<◌, bit_or, Bool, true, false, ◌||◌, ◌≡◌, refl, arith, ltb, ◌==◌, ltb→lt,
  all_below, all_below_sound,
}

abbrev same : Bool → Bool → Bool
same true b = b
same false true = false
same false false = true

same-eq : (a b : Bool) → same a b ≡ true → a ≡ b
same-eq a b h = ground arith

abbrev pub byte_bit : ℕ → ℕ → Bool
byte_bit x m = (x / 2 ^ m) % 2 == 1

or_table :
    all_below 8 (λ k.
      all_below 8
        (λ m. all_below 256 (λ x. same (byte_bit (bit_or x (2 ^ k)) m) (k == m || byte_bit x m))))
    ≡ true
unfolding all_below
or_table = refl

-- Bit `m` of `x | 1 << k` is set when `m` is `k`, and is that of `x` otherwise.
pub byte_bit-or :
    (x k m : ℕ) → x < 256 → k < 8 → m < 8 → byte_bit (bit_or x (2 ^ k)) m ≡ (k == m || byte_bit x m)
byte_bit-or x k m hx hk hm =
    same-eq _ _
      (all_below_sound 256 _ x (all_below_sound 8 _ m (all_below_sound 8 _ k or_table hk) hm) hx)

or_byte_table : all_below 8 (λ k. all_below 256 (λ x. ltb (bit_or x (2 ^ k)) 256)) ≡ true
unfolding all_below
or_byte_table = refl

pub bit_or-lt : (x k : ℕ) → x < 256 → k < 8 → bit_or x (2 ^ k) < 256
bit_or-lt x k hx hk =
    ltb→lt _ 256 (all_below_sound 256 _ x (all_below_sound 8 _ k or_byte_table hk) hx)

digit_eq : (x y m : ℕ) → byte_bit x m ≡ byte_bit y m → (x / 2 ^ m) % 2 ≡ (y / 2 ^ m) % 2
digit_eq x y m h = ground arith

halves_eq : (x y : ℕ) → x % 2 ≡ y % 2 → x / 2 ≡ y / 2 → x ≡ y
halves_eq x y h k = omega arith

-- Two bytes with the same bits are equal.
pub byte_ext :
    (x y : ℕ) → x < 256 → y < 256 → ((m : ℕ) → m < 8 → byte_bit x m ≡ byte_bit y m) → x ≡ y
byte_ext x y hx hy h = omega (
  arith,
  digit_eq x y 0 (h 0 (omega arith)),
  digit_eq x y 1 (h 1 (omega arith)),
  digit_eq x y 2 (h 2 (omega arith)),
  digit_eq x y 3 (h 3 (omega arith)),
  digit_eq x y 4 (h 4 (omega arith)),
  digit_eq x y 5 (h 5 (omega arith)),
  digit_eq x y 6 (h 6 (omega arith)),
  digit_eq x y 7 (h 7 (omega arith)),
)
