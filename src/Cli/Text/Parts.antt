-- ===== src/Cli/Text/Parts.antt =====
-- Lists in the arguments of modbus_sim/cli.py: the text of a list as Python prints it, less the brackets, and the parts that
-- `_int_list` and `_coil_list` make of it.
use modbus_sim.Prelude.{◌≡◌, ◌≢◌, refl, ap, ◌∙◌, false, List, [], ◌∷◌, ◌++◌, map, All, arith, ◌==◌}
use modbus_sim.Result.{Result, ok}
use modbus_sim.Cli.Text.{Codes, is_empty, strip, split, filled, each}

-- `", ".join`
abbrev pub joined : List Codes → Codes
joined [] = []
joined (part ∷ []) = part
joined (part ∷ next ∷ parts) = part ++ b',' ∷ b' ' ∷ joined (next ∷ parts)

abbrev pub HasNoComma : Codes → Type 0
HasNoComma = All (λ c. c ≢ b',')

split-append :
    (part rest : Codes) → HasNoComma part → split (part ++ b',' ∷ rest) ≡ part ∷ split rest
unfolding split
split-append [] rest h = refl
split-append (c ∷ part) rest h =
    let e : (c == b',') ≡ false = ground (arith, h.0) in rw (e, split-append part rest h.1) refl

split_part : (part : Codes) → HasNoComma part → split part ≡ part ∷ []
unfolding split
split_part [] h = refl
split_part (c ∷ part) h =
    let e : (c == b',') ≡ false = ground (arith, h.0) in rw (e, split_part part h.1) refl

-- A part that is read as a value, with the space that stands before it too.
pub record IsPart {ℓ} {A : Type ℓ} (read : Codes → Result A) (part : Codes) (value : A)
    : Type ℓ where
  pub whole : HasNoComma part
  pub filled : is_empty (strip part) ≡ false
  pub alone : read part ≡ ok value
  pub spaced : read (b' ' ∷ part) ≡ ok value

module _ {ℓ} {A : Type ℓ} (read : Codes → Result A) (show : A → Codes)
    (shows : (a : A) → IsPart read (show a) a) where
  split-spaced :
      (a : A) (values : List A)
      → split (b' ' ∷ joined (map show (a ∷ values))) ≡ map (λ v. b' ' ∷ show v) (a ∷ values)
  unfolding split
  split-spaced a [] = split_part (b' ' ∷ show a) ((λ e. ground (arith, e)), (shows a).whole)
  split-spaced a (b ∷ values) =
      split-append (b' ' ∷ show a) (b' ' ∷ joined (map show (b ∷ values)))
        ((λ e. ground (arith, e)), (shows a).whole)
      ∙ ap (λ l. (b' ' ∷ show a) ∷ l) (split-spaced b values)

  each-spaced : (values : List A) → each read (filled (map (λ v. b' ' ∷ show v) values)) ≡ ok values
  each-spaced [] = refl
  each-spaced (a ∷ values) = rw ((shows a).filled, (shows a).spaced, each-spaced values) refl

  -- A list of values that was printed is read back.
  pub each-joined :
      (values : List A) → each read (filled (split (joined (map show values)))) ≡ ok values
  unfolding split
  each-joined [] = refl
  each-joined (a ∷ []) =
      rw (split_part (show a) (shows a).whole, (shows a).filled, (shows a).alone) refl
  each-joined (a ∷ b ∷ values) =
      rw
        (
          split-append (show a) (b' ' ∷ joined (map show (b ∷ values))) (shows a).whole,
          split-spaced b values,
          (shows a).filled,
          (shows a).alone,
          each-spaced (b ∷ values),
        )
        refl
