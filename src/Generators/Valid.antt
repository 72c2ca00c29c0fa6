-- ===== src/Generators/Valid.antt =====
-- Sound generators: what `sample` returns and leaves, and what `make_generator` makes.
use Prim.Native.String.{String}
use modbus_sim.Prelude.{ℕ, ◌≡◌, subst, false, inl, inr, arith, Option, [], ◌∷◌, IsWord, Bool-cases}
use modbus_sim.Prelude.Integers.{ℤ, pos, negsuc}
use modbus_sim.Result.{Result, ok, err, ◌>>=◌, bind-eq-ok, ok_injective}
use modbus_sim.Generators.Floats.{Runtime}
use modbus_sim.Generators.{
  clamp, Generator, constant, sine, random_walk, clamp_u16, bound, sample, make_constant, make_sine,
  make_random_walk, Args, call_constant, call_sine, call_random_walk, make_generator, same_text,
  only, required,
}

clamp-IsWord : (z : ℤ) → IsWord (clamp z)
clamp-IsWord (pos n) = ground arith
clamp-IsWord (negsuc n) = omega arith

module _ (P : Runtime) where
  -- No lower than the one bound, and no higher than the other.
  abbrev pub Within : P.Float → P.Float → P.Float → Type 0
  Within min max v = (P.lt v min ≡ false) × (P.lt max v ≡ false)

  abbrev pub IsGenerator : Generator P → Type 0
  IsGenerator (constant value) = IsWord value
  IsGenerator (sine mean amp period_s) = Unit
  IsGenerator (random_walk step min max value rng) = (P.lt max min ≡ false) × Within min max value

  clamp_u16-IsWord : (x : P.Float) {v : ℕ} → clamp_u16 P x ≡ ok v → IsWord v
  unfolding clamp_u16
  clamp_u16-IsWord x h =
      let (z, _, same) = bind-eq-ok (P.rounded x) _ h in
      subst IsWord (ok_injective same) (clamp-IsWord z)

  bound-Within : (min max v : P.Float) → P.lt max min ≡ false → Within min max (bound P min max v)
  unfolding bound
  bound-Within min max v h = elim (Bool-cases (P.lt v min)) [
    | inl low ↦ rw low (P.lt_irreflexive min, h)
    | inr up ↦ elim (Bool-cases (P.lt max v)) [
      | inl high ↦ rw (up, high) (h, P.lt_irreflexive max)
      | inr down ↦ rw (up, down) (up, down)
    ]
  ]

  -- A sample of a generator is a 16-bit number, if it raises nothing, and leaves a generator, whose walk is
  -- within the bounds.
  pub record IsSample (o : Result ℕ × Generator P) : Type 0 where
    pub value : (v : ℕ) → o.0 ≡ ok v → IsWord v
    pub generator : IsGenerator o.1

  pub sample-IsSample :
      (g : Generator P) (elapsed : P.Float) → IsGenerator g → IsSample (sample P g elapsed)
  unfolding sample
  sample-IsSample (constant value) elapsed h = record {
    value = λ v e. subst IsWord (ok_injective e) h;
    generator = h;
  }
  sample-IsSample (sine mean amp period_s) elapsed h = record {
    value = λ v. clamp_u16-IsWord _;
    generator = tt;
  }
  sample-IsSample (random_walk step min max value rng) elapsed h = record {
    value = λ v. clamp_u16-IsWord _;
    generator = (h.0, bound-Within min max _ h.0);
  }

  make_constant-IsGenerator :
      (x : P.Float) {g : Generator P} → make_constant P x ≡ ok g → IsGenerator g
  unfolding make_constant
  make_constant-IsGenerator x h =
      let (v, rounded, same) = bind-eq-ok (clamp_u16 P x) _ h in
      subst IsGenerator (ok_injective same) (clamp_u16-IsWord x rounded)

  make_sine-IsGenerator :
      (mean amp period_s : P.Float) {g : Generator P}
      → make_sine P mean amp period_s ≡ ok g
      → IsGenerator g
  unfolding make_sine
  make_sine-IsGenerator mean amp period_s h = ground arith

  make_random_walk-IsGenerator :
      (start step min max : P.Float) (seed : Option ℤ) {g : Generator P}
      → make_random_walk P start step min max seed ≡ ok g
      → IsGenerator g
  unfolding make_random_walk
  make_random_walk-IsGenerator start step min max seed h = elim (Bool-cases (P.lt max min)) [
    | inl crossed ↦ absurd (cc (rw crossed at h))
    | inr apart ↦
        subst IsGenerator (ok_injective (rw apart at h)) (apart, bound-Within min max start apart)
  ]

  -- What a call returns is a generator.
  abbrev Makes : Result (Generator P) → Type 0
  Makes r = (g : Generator P) → r ≡ ok g → IsGenerator g

  bind-Makes {ℓ} :
      {A : Type ℓ} (first : Result A) (next : A → Result (Generator P))
      → ((a : A) → Makes (next a))
      → Makes (first >>= next)
  bind-Makes (ok a) next h g e = h a g e
  bind-Makes (err x) next h g e = absurd (cc e)

  call_constant-Makes : (args : Args P) → Makes (call_constant P args)
  unfolding call_constant
  call_constant-Makes args =
      bind-Makes (only P ("value" ∷ []) args) _
        (λ _. bind-Makes (required P "value" args) _ (λ value g. make_constant-IsGenerator value))

  call_sine-Makes : (args : Args P) → Makes (call_sine P args)
  unfolding call_sine
  call_sine-Makes args = bind-Makes (only P ("mean" ∷ "amp" ∷ "period_s" ∷ []) args) _ (λ _.
      bind-Makes (required P "mean" args) _ (λ mean. bind-Makes (required P "amp" args) _ (λ amp.
        bind-Makes (required P "period_s" args) _
          (λ period_s g. make_sine-IsGenerator mean amp period_s))))

  call_random_walk-Makes : (args : Args P) → Makes (call_random_walk P args)
  unfolding call_random_walk
  call_random_walk-Makes args =
      bind-Makes (only P ("start" ∷ "step" ∷ "min" ∷ "max" ∷ "seed" ∷ []) args) _ (λ _.
        bind-Makes (required P "start" args) _ (λ start.
          bind-Makes (required P "step" args) _ (λ step.
            bind-Makes (required P "min" args) _ (λ min.
              bind-Makes (required P "max" args) _
                (λ max g. make_random_walk-IsGenerator start step min max _)))))

  -- Whatever `make_generator` makes is a generator: a walk that starts within bounds that do not cross.
  pub make_generator-IsGenerator :
      (fn : String) (args : Args P) {g : Generator P}
      → make_generator P fn args ≡ ok g
      → IsGenerator g
  unfolding make_generator
  make_generator-IsGenerator fn args h = elim (Bool-cases (same_text fn "constant")) [
    | inl is ↦ call_constant-Makes args _ (rw is at h)
    | inr no_ ↦ elim (Bool-cases (same_text fn "sine")) [
      | inl is ↦ call_sine-Makes args _ (rw (no_, is) at h)
      | inr no_sine ↦ elim (Bool-cases (same_text fn "random_walk")) [
        | inl is ↦ call_random_walk-Makes args _ (rw (no_, no_sine, is) at h)
        | inr unknown ↦ absurd (cc (rw (no_, no_sine, unknown) at h))
      ]
    ]
  ]
