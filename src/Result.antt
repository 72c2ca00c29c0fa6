-- ===== src/Result.antt =====
-- The exceptions that the program raises, and functions that may raise as values.
use modbus_sim.Prelude.{ℕ, ◌≡◌, refl, ap, subst, ◌⊎◌, inl, inr, Option}

-- The subclasses of `ModbusError`.
pub data ModbusError : Type 0 where
  illegal_function illegal_data_address illegal_data_value server_device_failure : ModbusError

-- A `ModbusError` carries the `function_code` of the request where it is known. `protocol_error` is
-- the `ProtocolError` of modbus_sim/server.py, with the length field that it reports, and
-- `modbus_exception` the `ModbusExceptionError` of modbus_sim/client.py, with its two codes. The others are
-- Python's own, `incomplete_read` that of `readexactly`, and
-- `argument_type_error` that of argparse; messages are left out.
pub data Exception : Type 0 where
  modbus_error : ModbusError → Option ℕ → Exception
  protocol_error : ℕ → Exception
  value_error struct_error index_error : Exception
  runtime_error os_error attribute_error type_error incomplete_read : Exception
  argument_type_error : Exception
  modbus_exception : ℕ → ℕ → Exception

pub data Result {ℓ} (A : Type ℓ) : Type ℓ where
  ok : A → Result A
  err : Exception → Result A

infixl 5 ◌>>=◌ ◌>>◌
abbrev pub ◌>>=◌ {ℓ κ} : {A : Type ℓ} {B : Type κ} → Result A → (A → Result B) → Result B
err raised >>= next = err raised
ok value >>= next = next value

abbrev pub ◌>>◌ {ℓ} : {B : Type ℓ} → Result (Unit {0}) → Result B → Result B
first >> second = first >>= λ _. second

module _ {ℓ κ} {A : Type ℓ} {B : Type κ} where
  pub bind-eq-ok :
      (first : Result A) (next : A → Result B) {b : B}
      → (first >>= next) ≡ ok b
      → (a : A) × (first ≡ ok a) × (next a ≡ ok b)
  bind-eq-ok (ok a) next h = (a, refl, h)
  bind-eq-ok (err e) next h = cc

  pub bind-eq-err :
      (first : Result A) (next : A → Result B) {e : Exception}
      → (first >>= next) ≡ err e
      → (first ≡ err e) ⊎ ((a : A) × (first ≡ ok a) × (next a ≡ err e))
  bind-eq-err (ok a) next h = inr (a, refl, h)
  bind-eq-err (err e) next h = inl cc

pub Result-cases {ℓ} :
    {A : Type ℓ} (r : Result A) → ((a : A) × (r ≡ ok a)) ⊎ ((e : Exception) × (r ≡ err e))
Result-cases (ok a) = inl (a, refl)
Result-cases (err e) = inr (e, refl)

pub ok_injective {ℓ} : {A : Type ℓ} {a b : A} → ◌≡◌ {A = Result A} (ok a) (ok b) → a ≡ b
ok_injective h = cc

-- What holds of a value that is returned.
abbrev pub Returns {ℓ κ} : {A : Type ℓ} → (A → Type κ) → Result A → Type (ℓ ⊔ κ)
Returns {A = A} Q r = (a : A) → r ≡ ok a → Q a

module _ {ℓ} {A : Type ℓ} where
  pub ok-Returns {κ} : (Q : A → Type κ) (a : A) → Q a → Returns Q (ok a)
  ok-Returns Q a q b e = subst Q (ok_injective e) q

  pub bind-Returns {ι κ λ'} :
      {B : Type ι} (R : A → Type κ) (Q : B → Type λ') (first : Result A) {next : A → Result B}
      → Returns R first
      → ((a : A) → R a → Returns Q (next a))
      → Returns Q (first >>= next)
  bind-Returns R Q (ok a) holds step b e = step a (holds a refl) b e
  bind-Returns R Q (err x) holds step b e = absurd (cc e)

  pub any-Returns : (r : Result A) → Returns (λ _. Unit {0}) r
  any-Returns r a e = tt

pub then-eq-ok :
    (first second : Result (Unit {0}))
    → (first >> second) ≡ ok tt
    → (first ≡ ok tt) × (second ≡ ok tt)
then-eq-ok (ok u) second h = (refl, h)
then-eq-ok (err x) second h = absurd (cc h)

-- A value is returned, and this holds of it.
abbrev pub Gives {ℓ κ} : {A : Type ℓ} → (A → Type κ) → Result A → Type (ℓ ⊔ κ)
Gives {A = A} Q r = (a : A) × (r ≡ ok a) × Q a

-- What holds of an exception that is raised.
abbrev pub Raises {ℓ κ} : {A : Type ℓ} → (Exception → Type κ) → Result A → Type (ℓ ⊔ κ)
Raises Q r = (e : Exception) → r ≡ err e → Q e

err_injective {ℓ} : {A : Type ℓ} {x y : Exception} → ◌≡◌ {A = Result A} (err x) (err y) → x ≡ y
err_injective h = cc

module _ {κ} (Q : Exception → Type κ) where
  pub ok-Raises {ℓ} : {A : Type ℓ} (a : A) → Raises Q (ok a)
  ok-Raises a e h = absurd (cc h)

  pub bind-Raises {ℓ ι} :
      {A : Type ℓ} {B : Type ι} (first : Result A) (next : A → Result B)
      → Raises Q first
      → ((a : A) → Raises Q (next a))
      → Raises Q (first >>= next)
  bind-Raises (ok a) next h step e same = step a e same
  bind-Raises (err x) next h step e same = h e (ap err (err_injective same))
