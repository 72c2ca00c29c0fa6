-- ===== src/Cli/Text/Digits.antt =====
-- Python's decimal text of a number, and how modbus_sim/cli.py reads it.
use modbus_sim.Prelude.{
  ℕ, zero, suc, ◌+◌, ◌-◌, ◌*◌, ◌/◌, ◌%◌, ◌≤◌, ◌<◌, ◌≡◌, refl, sym, ap, ◌∙◌, true, false, [], ◌∷◌,
  ◌++◌, All, All-append, Bool-cases, inl, inr, arith, ◌==◌, ltb, if◌then◌else◌, some,
}
use modbus_sim.Cli.Text.{Codes, digit_value, scan, literal}

-- Decimal digits, on fuel; there are no more of them than the number is.
abbrev decimal : ℕ → ℕ → Codes
decimal zero n = (b'0' + n) ∷ []
decimal (suc fuel) n =
    let tens = decimal fuel (n / 10) in
    if ltb n 10 then (b'0' + n) ∷ [] else tens ++ (b'0' + n % 10) ∷ []

-- `str` of a number that is not negative.
unfoldable pub decimal_text : ℕ → Codes
decimal_text n = decimal n n

abbrev pub IsDigit : ℕ → Type 0
IsDigit c = (b'0' ≤ c) × (c ≤ b'9')

-- The number that a run of digits adds to.
abbrev value_of : ℕ → Codes → ℕ
value_of value [] = value
value_of value (c ∷ cs) = value_of (value * 10 + (c - b'0')) cs

value_of-append :
    (xs ys : Codes) (value : ℕ) → value_of value (xs ++ ys) ≡ value_of (value_of value xs) ys
value_of-append [] ys value = refl
value_of-append (x ∷ xs) ys value = value_of-append xs ys _

digit_value_lem : (c : ℕ) → IsDigit c → digit_value c ≡ c - b'0'
digit_value_lem c h = ground (arith, h)

not_underscore : (c : ℕ) → IsDigit c → (c == b'_') ≡ false
not_underscore c h = ground (arith, h)

in_base : (c : ℕ) → IsDigit c → ltb (c - b'0') 10 ≡ true
in_base c h = ground (arith, h)

scan_digits :
    (xs : Codes) (value : ℕ) → All IsDigit xs → scan 10 false value xs ≡ some (value_of value xs)
scan_digits [] value h = refl
scan_digits (c ∷ xs) value h =
    rw (not_underscore c h.0, digit_value_lem c h.0, in_base c h.0) (scan_digits xs _ h.1)

pub scan_number :
    (c : ℕ) (xs : Codes)
    → IsDigit c
    → All IsDigit xs
    → scan 10 true 0 (c ∷ xs) ≡ some (value_of 0 (c ∷ xs))
scan_number c xs h hs =
    rw (not_underscore c h, digit_value_lem c h, in_base c h) (scan_digits xs _ hs)

decimal-IsDigit : (fuel n : ℕ) → n ≤ fuel → All IsDigit (decimal fuel n)
decimal-IsDigit zero n h = (omega arith, tt)
decimal-IsDigit (suc fuel) n h = elim (Bool-cases (ltb n 10)) [
  | inl small ↦ rw small (ground arith, tt)
  | inr large ↦
      let tens : n / 10 ≤ fuel = ground arith in
      let d : n % 10 < 10 = omega arith in
      rw large (
        All-append IsDigit (decimal fuel (n / 10)) ((b'0' + n % 10) ∷ [])
          (decimal-IsDigit fuel (n / 10) tens) (omega arith, tt))
]

value_of-decimal : (fuel n : ℕ) → n ≤ fuel → value_of 0 (decimal fuel n) ≡ n
value_of-decimal zero n h = omega arith
value_of-decimal (suc fuel) n h = elim (Bool-cases (ltb n 10)) [
  | inl small ↦ rw small (omega arith)
  | inr large ↦
      let tens : n / 10 ≤ fuel = ground arith in
      rw
        (
          large,
          value_of-append (decimal fuel (n / 10)) ((b'0' + n % 10) ∷ []) 0,
          value_of-decimal fuel (n / 10) tens,
        )
        (omega arith)
]

-- A number that is not 0 begins with another digit.
record Begins (text : Codes) : Type 0 where
  first : ℕ
  rest : Codes
  same : text ≡ first ∷ rest
  lower : b'1' ≤ first
  upper : first ≤ b'9'
  digits : All IsDigit rest

decimal-Begins : (fuel n : ℕ) → n ≤ fuel → 1 ≤ n → Begins (decimal fuel n)
decimal-Begins zero n h p = absurd (omega arith)
decimal-Begins (suc fuel) n h p = elim (Bool-cases (ltb n 10)) [
  | inl small ↦ rw small (record {
    first = b'0' + n;
    rest = [];
    same = refl;
    lower = omega arith;
    upper = ground arith;
    digits = tt;
  })
  | inr large ↦
      let tens : n / 10 ≤ fuel = ground arith in
      let some_tens : 1 ≤ n / 10 = ground arith in
      let d : n % 10 < 10 = omega arith in
      let b = decimal-Begins fuel (n / 10) tens some_tens in
      rw (large, b.same)
        (record {
          first = b.first;
          rest = b.rest ++ (b'0' + n % 10) ∷ [];
          same = refl;
          lower = b.lower;
          upper = b.upper;
          digits = All-append IsDigit b.rest ((b'0' + n % 10) ∷ []) b.digits (omega arith, tt);
        })
]

-- A number that is not 0 is read digit by digit.
scan-decimal : (n : ℕ) (b : Begins (decimal n n)) → scan 10 true 0 (b.first ∷ b.rest) ≡ some n
scan-decimal n b =
    scan_number b.first b.rest (omega (arith, b.lower), b.upper) b.digits
    ∙ ap some (ap (value_of 0) (sym b.same) ∙ value_of-decimal n n (omega arith))

-- A number is read back from its text, which is a run of digits.
pub scan-decimal_text : (n : ℕ) → scan 10 true 0 (decimal_text n) ≡ some n
unfolding decimal_text
scan-decimal_text zero = refl
scan-decimal_text (suc n) =
    let b = decimal-Begins (suc n) (suc n) (omega arith) (omega arith) in
    rw (b.same) (scan-decimal (suc n) b)

pub literal-decimal_text : (n : ℕ) → literal (decimal_text n) ≡ some n
unfolding decimal_text
literal-decimal_text zero = refl
literal-decimal_text (suc n) =
    let b = decimal-Begins (suc n) (suc n) (omega arith) (omega arith) in
    let nonzero : (b.first == b'0') ≡ false = ground (arith, b.lower) in
    rw (b.same, nonzero) (scan-decimal (suc n) b)

pub decimal_text-IsDigit : (n : ℕ) → All IsDigit (decimal_text n)
unfolding decimal_text
decimal_text-IsDigit n = decimal-IsDigit n n (omega arith)
