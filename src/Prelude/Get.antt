-- ===== src/Prelude/Get.antt =====
-- What stands at an index of a list that is joined, cut or filled, and equality by indices.
use Prim.Native.Nat.{ℕ, zero, suc, ◌+◌, ◌-◌, ◌<◌}
use mathlib.Core.Path.{◌≡◌, refl, ap, ap₂}
use mathlib.Core.List.{List, [], ◌∷◌, ◌++◌}
use native.Mathlib.Omega.{arith}
use modbus_sim.Prelude.Tests.{ltb, if◌then◌else◌}
use modbus_sim.Prelude.Lists.{length, get_or, take, drop}

module _ {ℓ} {A : Type ℓ} where
  pub get_or-append :
      (xs ys : List A) (j : ℕ) (d : A)
      → get_or (xs ++ ys) j d
        ≡ (if ltb j (length xs) then get_or xs j d else get_or ys (j - length xs) d)
  get_or-append [] ys j d = ground (arith, ap (λ k. get_or ys k d) (minus_zero j))
    where
      minus_zero : (k : ℕ) → k - 0 ≡ k
      minus_zero k = omega arith
  get_or-append (x ∷ xs) ys zero d = ground arith
  get_or-append (x ∷ xs) ys (suc j) d = ground (arith, get_or-append xs ys j d)

  pub get_or-take :
      (n : ℕ) (xs : List A) (j : ℕ) (d : A)
      → get_or (take n xs) j d ≡ (if ltb j n then get_or xs j d else d)
  get_or-take zero xs j d = ground arith
  get_or-take (suc n) [] j d = ground arith
  get_or-take (suc n) (x ∷ xs) zero d = ground arith
  get_or-take (suc n) (x ∷ xs) (suc j) d = ground (arith, get_or-take n xs j d)

  pub get_or-drop :
      (n : ℕ) (xs : List A) (j : ℕ) (d : A) → get_or (drop n xs) j d ≡ get_or xs (n + j) d
  get_or-drop zero xs j d = let e : 0 + j ≡ j = omega arith in rw e
  get_or-drop (suc n) [] j d = refl
  get_or-drop (suc n) (x ∷ xs) j d =
      let e : suc n + j ≡ suc (n + j) = omega arith in rw e (get_or-drop n xs j d)

  pub list_ext :
      (xs ys : List A)
      → length xs ≡ length ys
      → ((j : ℕ) (d : A) → j < length xs → get_or xs j d ≡ get_or ys j d)
      → xs ≡ ys
  list_ext [] [] l h = refl
  list_ext [] (y ∷ ys) l h = absurd (omega arith)
  list_ext (x ∷ xs) [] l h = absurd (omega arith)
  list_ext (x ∷ xs) (y ∷ ys) l h =
      ap₂ ◌∷◌ (h 0 x (omega arith))
        (list_ext xs ys (omega arith) (λ j d lt. h (suc j) d (omega arith)))
