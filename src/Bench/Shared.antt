-- ===== src/Bench/Shared.antt =====
-- The list of latencies that the workers of scripts/bench.py share, in whatever order their turns end: what
-- `run` prints of it depends on the bag of the latencies alone.
use modbus_sim.Prelude.{
  ℕ, ◌≤◌, ◌≡◌, refl, sym, ap₂, subst, ◌∙◌, Bool, true, List, [], ◌∷◌, length, All, All-map, arith,
  Bool-cases, inl, inr,
}
use modbus_sim.Bench.{sorted, percentile, max_of, percentiles_of}
use modbus_sim.Bench.Sorted.{
  IsOrder, IsBelow, IsSorted, count, sorted-IsSorted, count-sorted, percentile_lem, count_all,
  le_refl,
}

-- Two lists hold as many members of every kind.
abbrev pub SameItems {ℓ} : {F : Type ℓ} → List F → List F → Type ℓ
SameItems {F = F} xs ys = (test : F → Bool) → count test xs ≡ count test ys

module _ {ℓ} {F : Type ℓ} where
  count-member :
      (Q : Type 0) (test : F → Bool) (xs : List F)
      → 1 ≤ count test xs
      → All (λ x. test x ≡ true → Q) xs
      → Q
  count-member Q test [] h hs = absurd (omega arith)
  count-member Q test (x ∷ xs) h hs = elim (Bool-cases (test x)) [
    | inl hit ↦ hs.0 hit
    | inr miss ↦ count-member Q test xs (ground (arith, h, miss)) hs.1
  ]

  SameItems-tail : (x : F) (xs ys : List F) → SameItems (x ∷ xs) (x ∷ ys) → SameItems xs ys
  SameItems-tail x xs ys h test = let e = h test in ground (arith, e)

  pub SameItems-length : (xs ys : List F) → SameItems xs ys → length xs ≡ length ys
  SameItems-length xs ys h = sym (count_all xs) ∙ h (λ _. true) ∙ count_all ys

  module _ (le : F → F → Bool) (o : IsOrder le)
      (antisym : (a b : F) → le a b ≡ true → le b a ≡ true → a ≡ b) where
    count_first : (x : F) (xs : List F) → 1 ≤ count (λ z. le z x) (x ∷ xs)
    count_first x xs = rw (le_refl le o x) (omega arith)

    -- The first of a sorted list is below whatever some member is below.
    head-IsBelow :
        (x y : F) (ys : List F)
        → IsSorted le (y ∷ ys)
        → 1 ≤ count (λ z. le z x) (y ∷ ys)
        → IsBelow le y x
    head-IsBelow x y ys s h =
        count-member (IsBelow le y x) (λ z. le z x) (y ∷ ys) h
          (λ here. here, All-map (λ z below member. o.trans y z x below member) ys s.0)

    sorted_unique : (xs ys : List F) → IsSorted le xs → IsSorted le ys → SameItems xs ys → xs ≡ ys
    sorted_unique [] [] s t h = refl
    sorted_unique [] (y ∷ ys) s t h = absurd (omega (arith, SameItems-length [] (y ∷ ys) h))
    sorted_unique (x ∷ xs) [] s t h = absurd (omega (arith, SameItems-length (x ∷ xs) [] h))
    sorted_unique (x ∷ xs) (y ∷ ys) s t h =
        let yx = head-IsBelow x y ys t (subst (λ n. 1 ≤ n) (h (λ z. le z x)) (count_first x xs)) in
        let xy =
          head-IsBelow y x xs s (subst (λ n. 1 ≤ n) (sym (h (λ z. le z y))) (count_first y ys)) in
        let e : x ≡ y = antisym x y xy yx in
        ap₂ (λ a rest. a ∷ rest) e
          (sorted_unique xs ys s.1 t.1
            (SameItems-tail y xs ys (subst (λ a. SameItems (a ∷ xs) (y ∷ ys)) e h)))

    sorted-SameItems : (xs ys : List F) → SameItems xs ys → sorted le xs ≡ sorted le ys
    sorted-SameItems xs ys h =
        sorted_unique (sorted le xs) (sorted le ys) (sorted-IsSorted le o xs)
          (sorted-IsSorted le o ys)
          (λ test. count-sorted le test xs ∙ h test ∙ sym (count-sorted le test ys))

    -- A percentile does not depend on the order of the values.
    percentile-SameItems :
        (rank : ℕ → ℕ) (nan : F) (xs ys : List F)
        → 1 ≤ length xs
        → SameItems xs ys
        → percentile le rank nan xs ≡ percentile le rank nan ys
    percentile-SameItems rank nan xs ys long h =
        let size = SameItems-length xs ys h in
        percentile_lem le o rank nan xs long
        ∙ rw (sorted-SameItems xs ys h, size) refl
        ∙ sym (percentile_lem le o rank nan ys (omega (arith, size, long)))

    -- A member that none is above.
    record IsMax (values : List F) (m : F) : Type ℓ where
      bounds : All (λ z. IsBelow le z m) values
      reached : 1 ≤ count (le m) values

    max_of-IsMax : (best : F) (xs : List F) → IsMax (best ∷ xs) (max_of le best xs)
    unfolding max_of
    max_of-IsMax best [] = record {
      bounds = (le_refl le o best, tt);
      reached = rw (le_refl le o best) (omega arith);
    }
    max_of-IsMax best (x ∷ xs) = elim (Bool-cases (le x best)) [
      | inl kept ↦
          let i = max_of-IsMax best xs in
          rw kept (record {
            bounds = (i.bounds.0, (o.trans x best _ kept i.bounds.0, i.bounds.1));
            reached = let r = i.reached in ground (arith, r);
          })
      | inr higher ↦
          let i = max_of-IsMax x xs in
          rw higher (record {
            bounds = (o.trans best x _ (o.total x best higher) i.bounds.0, i.bounds);
            reached = let r = i.reached in ground (arith, r);
          })
    ]

    IsMax-SameItems : (xs ys : List F) (m n : F) → IsMax xs m → IsMax ys n → SameItems xs ys → m ≡ n
    IsMax-SameItems xs ys m n i j h =
        antisym m n
          (count-member (IsBelow le m n) (le m) ys (subst (λ k. 1 ≤ k) (h (le m)) i.reached)
            (All-map (λ z below above. o.trans m z n above below) ys j.bounds))
          (count-member (IsBelow le n m) (le n) xs (subst (λ k. 1 ≤ k) (sym (h (le n))) j.reached)
            (All-map (λ z below above. o.trans n z m above below) xs i.bounds))

  module _ (le : F → F → Bool) (nan : F) (rank : ℕ → ℕ → ℕ) (o : IsOrder le)
      (antisym : (a b : F) → le a b ≡ true → le b a ≡ true → a ≡ b) where
    pub percentiles_of-SameItems :
        (xs ys : List F)
        → SameItems xs ys
        → percentiles_of le nan rank xs ≡ percentiles_of le nan rank ys
    percentiles_of-SameItems [] [] h = refl
    percentiles_of-SameItems [] (y ∷ ys) h = absurd (omega (arith, SameItems-length [] (y ∷ ys) h))
    percentiles_of-SameItems (x ∷ xs) [] h = absurd (omega (arith, SameItems-length (x ∷ xs) [] h))
    percentiles_of-SameItems (x ∷ xs) (y ∷ ys) h =
        let same = λ (p : ℕ).
          percentile-SameItems le o antisym (rank p) nan (x ∷ xs) (y ∷ ys) (omega arith) h in
        let max =
          IsMax-SameItems le o antisym (x ∷ xs) (y ∷ ys) (max_of le x xs) (max_of le y ys)
            (max_of-IsMax le o antisym x xs) (max_of-IsMax le o antisym y ys) h in
        rw (same 50, same 90, same 99, max) refl
