-- ===== src/Bench/Sorted.antt =====
-- The percentiles of scripts/bench.py.
use modbus_sim.Prelude.{
  ℕ, zero, suc, ◌+◌, ◌-◌, ◌<◌, ◌≤◌, ◌≡◌, refl, sym, subst, ◌∙◌, Bool, true, false, List, [], ◌∷◌,
  min, length, get_or, All, All-map, arith, if◌then◌else◌, Bool-cases, inl, inr,
}
use modbus_sim.Bench.{insert, sorted, percentile}

-- An order of the numbers measured, none of which is nan.
pub record IsOrder {ℓ} {F : Type ℓ} (le : F → F → Bool) : Type ℓ where
  pub total : (a b : F) → le a b ≡ false → le b a ≡ true
  pub trans : (a b c : F) → le a b ≡ true → le b c ≡ true → le a c ≡ true

module _ {ℓ} {F : Type ℓ} where
  -- How many members a test holds of.
  abbrev pub count : (F → Bool) → List F → ℕ
  count test [] = 0
  count test (x ∷ xs) = if test x then suc (count test xs) else count test xs

  pub count_all : (xs : List F) → count (λ _. true) xs ≡ length xs
  count_all [] = refl
  count_all (x ∷ xs) = rw (count_all xs) refl

  count-cons : (test : F → Bool) (x : F) (xs : List F) → count test xs ≤ count test (x ∷ xs)
  count-cons test x xs = ground arith

module _ {ℓ} {F : Type ℓ} (le : F → F → Bool) where
  abbrev pub IsBelow : F → F → Type 0
  IsBelow a b = le a b ≡ true

  abbrev pub IsSorted : List F → Type ℓ
  IsSorted [] = Unit
  IsSorted (x ∷ xs) = All (IsBelow x) xs × IsSorted xs

  module _ (o : IsOrder le) where
    insert-IsBelow :
        (a x : F) (xs : List F)
        → IsBelow a x
        → All (IsBelow a) xs
        → All (IsBelow a) (insert le x xs)
    unfolding insert
    insert-IsBelow a x [] h hs = (h, tt)
    insert-IsBelow a x (y ∷ ys) h hs = elim (Bool-cases (le x y)) [
      | inl first ↦ rw first (h, hs)
      | inr later ↦ rw later (hs.0, insert-IsBelow a x ys h hs.1)
    ]

    insert-IsSorted : (x : F) (xs : List F) → IsSorted xs → IsSorted (insert le x xs)
    unfolding insert
    insert-IsSorted x [] s = (tt, tt)
    insert-IsSorted x (y ∷ ys) s = elim (Bool-cases (le x y)) [
      | inl first ↦ rw first ((first, All-map (λ z h. o.trans x y z first h) ys s.0), s)
      | inr later ↦
          rw later (insert-IsBelow y x ys (o.total x y later) s.0, insert-IsSorted x ys s.1)
    ]

    pub sorted-IsSorted : (xs : List F) → IsSorted (sorted le xs)
    unfolding sorted
    sorted-IsSorted [] = tt
    sorted-IsSorted (x ∷ xs) = insert-IsSorted x (sorted le xs) (sorted-IsSorted xs)

  count-insert :
      (test : F → Bool) (x : F) (xs : List F) → count test (insert le x xs) ≡ count test (x ∷ xs)
  unfolding insert
  count-insert test x [] = refl
  count-insert test x (y ∷ ys) = ground (arith, count-insert test x ys)

  -- Sorting keeps how many members there are of each kind.
  pub count-sorted : (test : F → Bool) (xs : List F) → count test (sorted le xs) ≡ count test xs
  unfolding sorted
  count-sorted test [] = refl
  count-sorted test (x ∷ xs) =
      count-insert test x (sorted le xs) ∙ ground (arith, count-sorted test xs)

  All-get_or_lem :
      (P : F → Type 0) (xs : List F) (i : ℕ) (d : F) → All P xs → i < length xs → P (get_or xs i d)
  All-get_or_lem P [] i d h lt = absurd (omega arith)
  All-get_or_lem P (x ∷ xs) zero d h lt = h.0
  All-get_or_lem P (x ∷ xs) (suc i) d h lt = All-get_or_lem P xs i d h.1 (omega arith)

  length-sorted : (xs : List F) → length (sorted le xs) ≡ length xs
  length-sorted xs = sym (count_all (sorted le xs)) ∙ count-sorted (λ _. true) xs ∙ count_all xs

  -- The place of a percentile among the values in their order.
  abbrev pub place : (rank : ℕ → ℕ) → List F → ℕ
  place rank values = min (length values - 1) (rank (length values))

  -- As many values as the place says, and one, are not above it, and the others are not below it.
  pub record IsPlaced (values : List F) (i : ℕ) (v : F) : Type 0 where
    pub below : suc i ≤ count (λ x. le x v) values
    pub above : length values ≤ i + count (le v) values

  module _ (o : IsOrder le) where
    pub le_refl : (a : F) → le a a ≡ true
    le_refl a = elim (Bool-cases (le a a)) [ inl h ↦ h | inr h ↦ o.total a a h ]

    -- In a sorted list, a member has those before it below it, and those after it above it.
    count_below :
        (xs : List F) (i : ℕ) (d : F)
        → IsSorted xs
        → i < length xs
        → suc i ≤ count (λ x. le x (get_or xs i d)) xs
    count_below [] i d s h = absurd (omega arith)
    count_below (x ∷ xs) zero d s h = rw (le_refl x) (omega arith)
    count_below (x ∷ xs) (suc i) d s h =
        let below = All-get_or_lem (IsBelow x) xs i d s.0 (omega arith) in
        rw below (omega (arith, count_below xs i d s.1 (omega arith)))

    count_from : (a : F) (xs : List F) → All (IsBelow a) xs → count (le a) xs ≡ length xs
    count_from a [] h = refl
    count_from a (x ∷ xs) h = rw (h.0, count_from a xs h.1) refl

    count_above :
        (xs : List F) (i : ℕ) (d : F)
        → IsSorted xs
        → i < length xs
        → length xs ≤ i + count (le (get_or xs i d)) xs
    count_above [] i d s h = absurd (omega arith)
    count_above (x ∷ xs) zero d s h = rw (le_refl x, count_from x xs s.0) (omega arith)
    count_above (x ∷ xs) (suc i) d s h =
        let later = count_above xs i d s.1 (omega arith) in
        let more = count-cons (le (get_or xs i d)) x xs in omega (arith, later, more)

    get_or-IsBelow :
        (xs : List F) (i j : ℕ) (d : F)
        → IsSorted xs
        → i ≤ j
        → j < length xs
        → IsBelow (get_or xs i d) (get_or xs j d)
    get_or-IsBelow [] i j d s h lt = absurd (omega arith)
    get_or-IsBelow (x ∷ xs) zero zero d s h lt = le_refl x
    get_or-IsBelow (x ∷ xs) zero (suc j) d s h lt =
        All-get_or_lem (IsBelow x) xs j d s.0 (omega arith)
    get_or-IsBelow (x ∷ xs) (suc i) zero d s h lt = absurd (omega arith)
    get_or-IsBelow (x ∷ xs) (suc i) (suc j) d s h lt =
        get_or-IsBelow xs i j d s.1 (omega arith) (omega arith)

    pub percentile_lem :
        (rank : ℕ → ℕ) (nan : F) (values : List F)
        → 1 ≤ length values
        → percentile le rank nan values ≡ get_or (sorted le values) (place rank values) nan
    unfolding percentile
    percentile_lem rank nan [] h = absurd (omega arith)
    percentile_lem rank nan (x ∷ xs) h = rw (length-sorted (x ∷ xs)) refl

    sorted-IsPlaced :
        (values : List F) (i : ℕ) (nan : F)
        → i < length values
        → IsPlaced values i (get_or (sorted le values) i nan)
    sorted-IsPlaced values i nan lt =
        let ordered = sorted le values in
        let s = sorted-IsSorted o values in
        let size = length-sorted values in
        let v = get_or ordered i nan in
        let inside : i < length ordered = omega (arith, size) in
        record {
          below =
              subst (λ n. suc i ≤ n) (count-sorted (λ x. le x v) values)
                (count_below ordered i nan s inside);
          above =
              omega (arith, size, count-sorted (le v) values, count_above ordered i nan s inside);
        }

    -- The percentile of a list of values that is not empty, at a rank: it stands at the place of the rank among the
    -- values in their order, the last place if the rank is beyond it; and a higher rank has no lower percentile.
    pub percentile-IsPlaced :
        (rank higher : ℕ → ℕ) (nan : F) (values : List F)
        → 1 ≤ length values
        → rank (length values) ≤ higher (length values)
        → IsPlaced values (place rank values) (percentile le rank nan values)
          × IsBelow (percentile le rank nan values) (percentile le higher nan values)
    percentile-IsPlaced rank higher nan values h k =
        let n = length values in
        let size = length-sorted values in
        let i : place rank values < n = ground arith in
        let j : place higher values < length (sorted le values) = ground (arith, size) in
        let ij : place rank values ≤ place higher values = ground (arith, k) in
        rw (percentile_lem rank nan values h, percentile_lem higher nan values h)
          (
            sorted-IsPlaced values (place rank values) nan i,
            get_or-IsBelow (sorted le values) (place rank values) (place higher values) nan
                (sorted-IsSorted o values) ij j,
          )
