-- ===== src/Cli/Text/Shown.antt =====
-- What modbus_sim/cli.py prints for a list of registers or coils, less the brackets, as an argument of its own: `str` of
-- integers and of Booleans, against `_int_list` and `_coil_list`.

use modbus_sim.Prelude.{
  ℕ, suc, ◌≡◌, ◌≢◌, refl, ap, ◌∙◌, Bool, true, false, List, [], ◌∷◌, All, All-map, arith, ◌==◌, map,
  some, none, Option,
}
use modbus_sim.Prelude.Integers.{ℤ, pos, negsuc}
use modbus_sim.Result.{ok}
use modbus_sim.Cli.Text.{
  Codes, codes, is_space, is_int_space, is_empty, strip_right, strip_by, literal, scan, signed,
  int_any, int_decimal, int_list, coil_value, coil_list,
}
use modbus_sim.Cli.Text.Parts.{joined, IsPart, each-joined}
use modbus_sim.Cli.Text.Digits.{
  decimal_text, IsDigit, scan-decimal_text, literal-decimal_text, decimal_text-IsDigit,
}

-- `str`
abbrev pub int_text : ℤ → Codes
int_text (pos n) = decimal_text n
int_text (negsuc n) = b'-' ∷ decimal_text (suc n)

abbrev pub bool_text : Bool → Codes
bool_text true = codes "True"
bool_text false = codes "False"

module _ (space : ℕ → Bool) where
  strip_right-solid :
      (text : Codes) → All (λ c. space c ≡ false) text → strip_right space text ≡ text
  strip_right-solid [] h = refl
  strip_right-solid (c ∷ text) h = rw (h.0, strip_right-solid text h.1) refl

  strip-solid : (text : Codes) → All (λ c. space c ≡ false) text → strip_by space text ≡ text
  strip-solid [] h = refl
  strip-solid (c ∷ text) h = rw (h.0) (strip_right-solid (c ∷ text) h)

-- Digits and a sign are neither spaces nor commas.
record IsSolid (c : ℕ) : Type 0 where
  space : is_space c ≡ false
  int_space : is_int_space c ≡ false
  comma : c ≢ b','

digit-IsSolid : (c : ℕ) → IsDigit c → IsSolid c
digit-IsSolid c h = record {
  space = ground (arith, h);
  int_space = ground (arith, h);
  comma = λ e. omega (arith, h, e);
}

int_text-IsSolid : (z : ℤ) → All IsSolid (int_text z)
int_text-IsSolid (pos n) = All-map digit-IsSolid (decimal_text n) (decimal_text-IsDigit n)
int_text-IsSolid (negsuc n) = (
  record { space = refl; int_space = refl; comma = λ e. omega (arith, e) },
  All-map digit-IsSolid (decimal_text (suc n)) (decimal_text-IsDigit (suc n)),
)

signed_digits :
    (read : Codes → Option ℕ) (text : Codes) (n : ℕ)
    → read [] ≡ none
    → All IsDigit text
    → read text ≡ some n
    → signed read text ≡ some (pos n)
signed_digits read [] n empty h e = absurd (cc (e, empty))
signed_digits read (c ∷ text) n empty h e =
    let minus : (c == b'-') ≡ false = ground (arith, h.0) in
    let plus : (c == b'+') ≡ false = ground (arith, h.0) in rw (minus, plus, e) refl

signed-int_text : (z : ℤ) → signed literal (int_text z) ≡ some z
signed-int_text (pos n) =
    signed_digits literal (decimal_text n) n refl (decimal_text-IsDigit n) (literal-decimal_text n)
signed-int_text (negsuc n) = rw (literal-decimal_text (suc n)) refl

int_text-filled : (z : ℤ) → is_empty (int_text z) ≡ false
int_text-filled z =
    elim (int_text z) as (λ text. signed literal text ≡ some z → is_empty text ≡ false) [
      | [] ↦ λ e. absurd (cc e)
      | c ∷ text ↦ λ e. refl
    ]
      (signed-int_text z)

int_any-int_text : (z : ℤ) → int_any (int_text z) ≡ ok z
unfolding int_any
int_any-int_text z =
    rw
      (
        strip-solid is_int_space (int_text z)
            (All-map (λ c s. s.int_space) (int_text z) (int_text-IsSolid z)),
        signed-int_text z,
      )
      refl

int_text-IsPart : (z : ℤ) → IsPart int_any (int_text z) z
unfolding int_any
int_text-IsPart z = record {
  whole = All-map (λ c s. s.comma) (int_text z) (int_text-IsSolid z);
  filled =
      ap is_empty (
        strip-solid is_space (int_text z)
          (All-map (λ c s. s.space) (int_text z) (int_text-IsSolid z)))
      ∙ int_text-filled z;
  alone = int_any-int_text z;
  spaced = int_any-int_text z;
}

-- `int` reads a number back from its text.
pub int_decimal-decimal_text : (n : ℕ) → int_decimal (decimal_text n) ≡ ok (pos n)
unfolding int_decimal
int_decimal-decimal_text n =
    let solid = int_text-IsSolid (pos n) in
    rw
      (
        strip-solid is_int_space (decimal_text n)
            (All-map (λ c s. s.int_space) (decimal_text n) solid),
        signed_digits (scan 10 true 0) (decimal_text n) n refl (decimal_text-IsDigit n)
            (scan-decimal_text n),
      )
      refl

-- `_int_list` reads back any list of integers from the text that Python prints for it, less the brackets.
pub int_list-joined : (values : List ℤ) → int_list (joined (map int_text values)) ≡ ok values
unfolding int_list
int_list-joined values = each-joined int_any int_text int_text-IsPart values

bool_text-IsPart : (b : Bool) → IsPart coil_value (bool_text b) b
unfolding coil_value
bool_text-IsPart true = record { whole = omega arith; filled = refl; alone = refl; spaced = refl }
bool_text-IsPart false = record { whole = omega arith; filled = refl; alone = refl; spaced = refl }

-- `_coil_list` reads back any list of coils from the text that Python prints for it, less the brackets.
pub coil_list-joined : (values : List Bool) → coil_list (joined (map bool_text values)) ≡ ok values
unfolding coil_list
coil_list-joined values = each-joined coil_value bool_text bool_text-IsPart values
