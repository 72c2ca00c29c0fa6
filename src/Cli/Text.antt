-- ===== src/Cli/Text.antt =====
-- The texts of a command line and what modbus_sim/cli.py reads from them: `_coil_value`, `_int_list` and `_coil_list`,
-- with the methods of Python's `str` and the `int` that they use. A text is the list of its characters' codes, which are
-- ASCII.
pub mod Parts
pub mod Digits
pub mod Shown
use Prim.Native.Char.{code}
use Prim.Native.String.{String}
use Prim.Native.String as Text
use modbus_sim.Prelude.{
  ℕ, zero, suc, ◌+◌, ◌-◌, ◌*◌, Bool, true, false, ◌||◌, ◌&&◌, Option, none, some, List, [], ◌∷◌,
  ltb, leb, ◌==◌, if◌then◌else◌,
}
use modbus_sim.Prelude.Integers.{ℤ, pos, negsuc}
use modbus_sim.Result.{Result, ok, err, value_error, argument_type_error, ◌>>=◌}

abbrev pub Codes : Type 0
Codes = List ℕ

abbrev pub codes : String → Codes
codes Text.[] = []
codes (Text.◌∷◌ c text) = code c ∷ codes text

abbrev pub is_empty : Codes → Bool
is_empty [] = true
is_empty (_ ∷ _) = false

abbrev pub same_codes : Codes → Codes → Bool
same_codes [] [] = true
same_codes (a ∷ rest) (b ∷ others) = a == b && same_codes rest others
same_codes _ _ = false

-- `isspace`; `int` takes fewer characters for spaces than `strip`.
abbrev pub is_space : ℕ → Bool
is_space c = (leb 9 c && leb c 13) || (leb 28 c && leb c 32)

abbrev pub is_int_space : ℕ → Bool
is_int_space c = (leb 9 c && leb c 13) || c == 32

module _ (space : ℕ → Bool) where
  abbrev pub strip_left : Codes → Codes
  strip_left [] = []
  strip_left (c ∷ cs) = let rest = strip_left cs in if space c then rest else c ∷ cs

  abbrev pub strip_right : Codes → Codes
  strip_right [] = []
  strip_right (c ∷ cs) =
      let rest = strip_right cs in if space c && is_empty rest then [] else c ∷ rest

  abbrev pub strip_by : Codes → Codes
  strip_by text = strip_right (strip_left text)

abbrev pub strip : Codes → Codes
strip = strip_by is_space

abbrev pub lower_code : ℕ → ℕ
lower_code c = if leb b'A' c && leb c b'Z' then c + 32 else c

abbrev pub lowered : Codes → Codes
lowered [] = []
lowered (c ∷ cs) = lower_code c ∷ lowered cs

abbrev pub is_among : Codes → List Codes → Bool
is_among text [] = false
is_among text (word ∷ words) = same_codes text word || is_among text words

abbrev pub true_words : List Codes
true_words = codes "1" ∷ codes "on" ∷ codes "true" ∷ codes "yes" ∷ []

abbrev pub false_words : List Codes
false_words = codes "0" ∷ codes "off" ∷ codes "false" ∷ codes "no" ∷ []

unfoldable pub coil_value : Codes → Result Bool
coil_value text =
    let word = lowered (strip text) in
    if is_among word true_words
    then ok true
    else if is_among word false_words
    then ok false
    else err argument_type_error

-- `split(",")`
abbrev pub onto : ℕ → List Codes → List Codes
onto c [] = (c ∷ []) ∷ []
onto c (part ∷ parts) = (c ∷ part) ∷ parts

unfoldable pub split : Codes → List Codes
split [] = [] ∷ []
split (c ∷ cs) = let parts = split cs in if c == b',' then [] ∷ parts else onto c parts

-- The value of a digit, 36 or more where a character is none.
abbrev pub digit_value : ℕ → ℕ
digit_value c =
    if leb b'0' c && leb c b'9'
    then c - b'0'
    else if leb b'a' (lower_code c) && leb (lower_code c) b'z'
    then lower_code c - 87
    else 36

-- The digits of a number in a base, with single underscores between them: `due` where a digit must follow.
abbrev pub scan : ℕ → Bool → ℕ → Codes → Option ℕ
scan base due value [] = if due then none else some value
scan base due value (c ∷ cs) =
    let on_underscore = scan base true value cs in
    let on_digit = scan base false (value * base + digit_value c) cs in
    if c == b'_'
    then if due then none else on_underscore
    else if ltb (digit_value c) base
    then on_digit
    else none

-- After `0x`, `0o` or `0b`: an underscore may follow.
abbrev pub prefixed : ℕ → Codes → Option ℕ
prefixed base [] = none
prefixed base (c ∷ cs) = if c == b'_' then scan base true 0 cs else scan base true 0 (c ∷ cs)

-- A decimal number that begins with 0 is 0.
abbrev pub only_zero : Option ℕ → Option ℕ
only_zero none = none
only_zero (some value) = if value == 0 then some 0 else none

abbrev pub after_zero : Codes → Option ℕ
after_zero [] = some 0
after_zero (c ∷ cs) =
    if lower_code c == b'x'
    then prefixed 16 cs
    else if lower_code c == b'o'
    then prefixed 8 cs
    else if lower_code c == b'b'
    then prefixed 2 cs
    else only_zero (scan 10 false 0 (c ∷ cs))

-- A number with no sign, by the prefix of its base.
abbrev pub literal : Codes → Option ℕ
literal [] = none
literal (c ∷ cs) = if c == b'0' then after_zero cs else scan 10 true 0 (c ∷ cs)

abbrev pub negated : ℕ → ℤ
negated zero = pos 0
negated (suc n) = negsuc n

abbrev pub signed : (Codes → Option ℕ) → Codes → Option ℤ
signed read [] = none
signed read (c ∷ cs) =
    if c == b'-'
    then elim (read cs) [ none ↦ none | some n ↦ some (negated n) ]
    else if c == b'+'
    then elim (read cs) [ none ↦ none | some n ↦ some (pos n) ]
    else elim (read (c ∷ cs)) [ none ↦ none | some n ↦ some (pos n) ]

abbrev pub or_value_error {ℓ} : {A : Type ℓ} → Option A → Result A
or_value_error none = err value_error
or_value_error (some value) = ok value

-- `int(text, 0)`
unfoldable pub int_any : Codes → Result ℤ
int_any text = or_value_error (signed literal (strip_by is_int_space text))

-- `int(text)`
unfoldable pub int_decimal : Codes → Result ℤ
int_decimal text = or_value_error (signed (scan 10 true 0) (strip_by is_int_space text))

-- A list comprehension over the parts that are not blank.
abbrev pub filled : List Codes → List Codes
filled [] = []
filled (part ∷ parts) =
    let rest = filled parts in if is_empty (strip part) then rest else part ∷ rest

abbrev pub each {ℓ} : {A : Type ℓ} → (Codes → Result A) → List Codes → Result (List A)
each read [] = ok []
each read (part ∷ parts) = do value ← read part; values ← each read parts; ok (value ∷ values)

unfoldable pub int_list : Codes → Result (List ℤ)
unfolding split int_any
int_list text = each int_any (filled (split text))

unfoldable pub coil_list : Codes → Result (List Bool)
unfolding split coil_value
coil_list text = each coil_value (filled (split text))
