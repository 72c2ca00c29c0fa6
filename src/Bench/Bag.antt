-- ===== src/Bench/Bag.antt =====
-- The latencies of scripts/bench.py as a bag: `run` prints the same, in whatever order the turns of its workers end.
use mathlib.Core.Quot
use mathlib.Core.Quot.{Quot}
use modbus_sim.Prelude.{
  ℕ, ◌+◌, ◌≡◌, refl, sym, ap, ◌∙◌, Bool, true, List, [], ◌∷◌, ◌++◌, map, All, arith,
}
use modbus_sim.Bench.{Tally, all_latencies, total_count, total_errors, Summary, report, summarize}
use modbus_sim.Bench.Sorted.{IsOrder, count}
use modbus_sim.Bench.Shared.{SameItems, SameItems-length, percentiles_of-SameItems}

abbrev pub Items {ℓ} : Type ℓ → Type ℓ
Items F = Quot (SameItems {F = F})

-- An order of the numbers measured in which equal numbers are the same: no nan, and no zero with a sign.
pub record IsLinear {ℓ} {F : Type ℓ} (le : F → F → Bool) : Type ℓ where
  pub set : IsSet F
  pub order : IsOrder le
  pub antisym : (a b : F) → le a b ≡ true → le b a ≡ true → a ≡ b

module _ {ℓ} {F : Type ℓ} where
  -- A list that workers fill with these latencies: each adds its own in their order, one worker at a time.
  pub data IsFilled : List (List F) → List F → Type ℓ where
    done : (left : List (List F)) → All (λ xs. xs ≡ []) left → IsFilled left []
    turn :
        (before after : List (List F)) (x : F) (xs shared : List F)
        → IsFilled (before ++ xs ∷ after) shared
        → IsFilled (before ++ (x ∷ xs) ∷ after) (x ∷ shared)

  joined : List (List F) → List F
  joined [] = []
  joined (xs ∷ left) = xs ++ joined left

  count-append :
      (test : F → Bool) (xs ys : List F) → count test (xs ++ ys) ≡ count test xs + count test ys
  count-append test [] ys = omega arith
  count-append test (x ∷ xs) ys = ground (arith, count-append test xs ys)

  joined-done : (left : List (List F)) → All (λ xs. xs ≡ []) left → joined left ≡ []
  unfolding joined
  joined-done [] h = refl
  joined-done (xs ∷ left) h = rw (h.0, joined-done left h.1) refl

  joined-turn :
      (before after : List (List F)) (x : F) (xs : List F)
      → SameItems (x ∷ joined (before ++ xs ∷ after)) (joined (before ++ (x ∷ xs) ∷ after))
  unfolding joined
  joined-turn [] after x xs test = refl
  joined-turn (b ∷ before) after x xs test =
      let rest = joined-turn before after x xs test in
      let first = count-append test b (joined (before ++ xs ∷ after)) in
      let after_it = count-append test b (joined (before ++ (x ∷ xs) ∷ after)) in
      ground (arith, rest, first, after_it)

  IsFilled-SameItems :
      {left : List (List F)} {shared : List F}
      → IsFilled left shared
      → SameItems shared (joined left)
  IsFilled-SameItems (done left h) test = rw (joined-done left h) refl
  IsFilled-SameItems (turn before after x xs shared filled) test =
      let rest = IsFilled-SameItems filled test in
      let here = joined-turn before after x xs test in ground (arith, rest, here)

  all_latencies_lem : (ts : List (Tally F)) → all_latencies ts ≡ joined (map (λ t. t.latencies) ts)
  unfolding joined
  all_latencies_lem [] = refl
  all_latencies_lem (t ∷ ts) = ap (λ xs. t.latencies ++ xs) (all_latencies_lem ts)

  abbrev bag : List F → Items F
  bag = Quot.mk

  -- The turns of the workers come to the same bag in any order.
  bag-IsFilled :
      (ts : List (Tally F)) (shared : List F)
      → IsFilled (map (λ t. t.latencies) ts) shared
      → bag shared ≡ bag (all_latencies ts)
  bag-IsFilled ts shared filled =
      Quot.sound (IsFilled-SameItems filled) ∙ ap bag (sym (all_latencies_lem ts))

  module _ (le : F → F → Bool) (linear : IsLinear le) (nan : F) (rank : ℕ → ℕ → ℕ)
      (total errors : ℕ) where
    report-SameItems :
        (xs ys : List F)
        → SameItems xs ys
        → report le nan rank total errors xs ≡ report le nan rank total errors ys
    unfolding report
    report-SameItems xs ys h =
        let size = SameItems-length xs ys h in
        let same = percentiles_of-SameItems le nan rank linear.order linear.antisym xs ys h in
        rw (size, same) refl

    Summary-set : IsSet (Summary F)
    Summary-set = hlevel linear.set

    -- What `run` prints, as a function of the bag.
    printed : Items F → Summary F
    printed = Quot.lift Summary-set (report le nan rank total errors) report-SameItems

    printed-mk : (xs : List F) → printed (bag xs) ≡ report le nan rank total errors xs
    unfolding printed
    printed-mk xs = refl

  -- Whatever order the turns of the workers end in, what `run` prints of the list that they share, and its
  -- exit status, are those of workers that ran one after the other.
  pub report-IsFilled :
      (le : F → F → Bool) (nan : F) (rank : ℕ → ℕ → ℕ) (ts : List (Tally F)) (shared : List F)
      → IsLinear le
      → IsFilled (map (λ t. t.latencies) ts) shared
      → report le nan rank (total_count ts) (total_errors ts) shared ≡ summarize le nan rank ts
  unfolding summarize
  report-IsFilled le nan rank ts shared linear filled =
      let print = printed le linear nan rank (total_count ts) (total_errors ts) in
      let shown = printed-mk le linear nan rank (total_count ts) (total_errors ts) in
      sym (shown shared) ∙ ap print (bag-IsFilled ts shared filled) ∙ shown (all_latencies ts)
