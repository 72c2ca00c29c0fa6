-- ===== src/Server/Tasks/Rounds/Slots.antt =====
-- What the registers that are bound to generators show after a round of `_run_generators` of modbus_sim/server.py.
use modbus_sim.Prelude.{
  ℕ, ◌≡◌, refl, sym, ap, subst, ◌∙◌, Option, none, some, List, [], ◌∷◌, All, All-map, arith, ◌==◌,
  if◌then◌else◌, ==_refl, Bool-cases, Option-cases, inl, inr,
}
use modbus_sim.Result.{Result, ok, err}
use modbus_sim.Datastore.Value.{Value, num}
use modbus_sim.Datastore.Device.{Device, IsValid}
use modbus_sim.Datastore.Store.{DataStore, get, holds}
use modbus_sim.Datastore.Store as Store
use modbus_sim.Datastore.Store.Lookup.{
  get-update, get-eq-some, get-holds, holds-update, All-get, All-update,
}
use modbus_sim.Generators.Floats.{Runtime}
use modbus_sim.Generators.{GeneratorBinding, Target, sample, update}
use modbus_sim.Generators.Update.{update-IsWritten}
use modbus_sim.Config.Build.{IsBinding}
use modbus_sim.Config.Wired.{IsWired, update-unit_id}
use modbus_sim.Server.Connection.Frame.{AreValid}
use modbus_sim.Server.Tasks.Rounds.Update.{slot, update-slot, update-value, slot-update}
use modbus_sim.Server.Tasks.Rounds.{Round, then_update, update_found, run_round, run_round-found}

module _ (P : Runtime) where
  -- Another slot, of the same device or of another.
  abbrev pub Apart : GeneratorBinding P → GeneratorBinding P → Type 0
  Apart b c = ¬ ((b.unit_id ≡ c.unit_id) × (b.target ≡ c.target) × (b.address ≡ c.address))

  abbrev pub AreApart : List (GeneratorBinding P) → Type 0
  AreApart [] = Unit
  AreApart (b ∷ bindings) = All (Apart b) bindings × AreApart bindings

  abbrev at_slot : Option Device → Target → ℕ → Option Value
  at_slot none t a = none
  at_slot (some d) t a = some (slot t a d)

  -- What the slot of a binding holds.
  abbrev pub shown : DataStore → GeneratorBinding P → Option Value
  shown store b = at_slot (get store b.unit_id) b.target b.address

  -- The store after the update of a binding.
  abbrev updated : P.Float → DataStore → GeneratorBinding P → Device → DataStore
  updated elapsed store b d = Store.update store b.unit_id (update P elapsed b d).1.1

  get-updated :
      (elapsed : P.Float) (store : DataStore) (b : GeneratorBinding P) (d : Device) (u : ℕ)
      → get store b.unit_id ≡ some d
      → get (updated elapsed store b d) u
        ≡ (if b.unit_id == u then some (update P elapsed b d).1.1 else get store u)
  get-updated elapsed store b d u found =
      let (unit, held) = get-eq-some store b.unit_id d found in
      get-update store b.unit_id (update P elapsed b d).1.1 u
        ((update-unit_id P elapsed b d).1 ∙ unit)
      ∙ ground (arith, held)

  updated-valid :
      (elapsed : P.Float) (store : DataStore) (b : GeneratorBinding P) (d : Device)
      → AreValid store
      → IsBinding P b
      → get store b.unit_id ≡ some d
      → AreValid (updated elapsed store b d)
  updated-valid elapsed store b d valid g found =
      let h = All-get IsValid store b.unit_id valid found in
      All-update IsValid store b.unit_id _ valid (update-IsWritten P elapsed b d g h).0.device

  shown-updated_self :
      (elapsed : P.Float) (store : DataStore) (b : GeneratorBinding P) (d : Device) (v : ℕ)
      → AreValid store
      → IsBinding P b
      → get store b.unit_id ≡ some d
      → (update P elapsed b d).0 ≡ ok v
      → shown (updated elapsed store b d) b ≡ some (num v)
  shown-updated_self elapsed store b d v valid g found same =
      let h = All-get IsValid store b.unit_id valid found in
      rw (get-updated elapsed store b d b.unit_id found, ==_refl b.unit_id)
        (ap some (update-slot P elapsed b d v g h same))

  shown-updated :
      (elapsed : P.Float) (store : DataStore) (b c : GeneratorBinding P) (d : Device)
      → AreValid store
      → IsBinding P b
      → get store b.unit_id ≡ some d
      → Apart c b
      → shown (updated elapsed store b d) c ≡ shown store c
  shown-updated elapsed store b c d valid g found apart =
      rw (get-updated elapsed store b d c.unit_id found)
        (elim (Bool-cases (b.unit_id == c.unit_id)) [
          | inr other ↦ rw other refl
          | inl same ↦
              let unit : c.unit_id ≡ b.unit_id = ground arith in
              let h = All-get IsValid store b.unit_id valid found in
              rw (same, unit, found)
                (ap some
                  (slot-update P elapsed b d c.target c.address g h (λ (t, a). apart (unit, t, a))))
        ])

  shown-then_update :
      (r : Result ℕ) (b c : GeneratorBinding P) (bindings : List (GeneratorBinding P))
      (store : DataStore) (later : DataStore → Round P) (before : Option Value)
      → shown store c ≡ before
      → shown (later store).store c ≡ before
      → shown (then_update P r b bindings store later).store c ≡ before
  shown-then_update (ok v) b c bindings store later before h k = k
  shown-then_update (err e) b c bindings store later before h k = h

  -- A round leaves a slot that none of its bindings has.
  run_round-elsewhere :
      (elapsed : P.Float) (bindings : List (GeneratorBinding P)) (store : DataStore)
      (c : GeneratorBinding P)
      → AreValid store
      → All (IsBinding P) bindings
      → All (Apart c) bindings
      → shown (run_round P elapsed bindings store).store c ≡ shown store c
  unfolding run_round update_found
  run_round-elsewhere elapsed [] store c valid g apart = refl
  run_round-elsewhere elapsed (b ∷ bindings) store c valid g apart =
      elim (Option-cases (get store b.unit_id)) [
        | inl absent ↦ rw absent (run_round-elsewhere elapsed bindings store c valid g.1 apart.1)
        | inr (d, found) ↦
            let now = shown-updated elapsed store b c d valid g.0 found apart.0 in
            rw found (
              shown-then_update (update P elapsed b d).0 _ c bindings (updated elapsed store b d)
                (run_round P elapsed bindings) (shown store c) now
                (run_round-elsewhere elapsed bindings (updated elapsed store b d) c
                    (updated-valid elapsed store b d valid g.0 found) g.1 apart.1
                  ∙ now))
      ]

  -- The slot of a binding shows the sample of its generator.
  abbrev pub Shows : P.Float → DataStore → GeneratorBinding P → Type 0
  Shows elapsed store b =
      (v : ℕ) × ((sample P b.generator elapsed).0 ≡ ok v) × (shown store b ≡ some (num v))

  then_update-eq-ok :
      (r : Result ℕ) (b : GeneratorBinding P) (bindings : List (GeneratorBinding P))
      (store : DataStore) (later : DataStore → Round P)
      → (then_update P r b bindings store later).result ≡ ok tt
      → (v : ℕ) × (r ≡ ok v)
        × ((then_update P r b bindings store later).store ≡ (later store).store)
        × ((later store).result ≡ ok tt)
  then_update-eq-ok (ok v) b bindings store later h = (v, refl, refl, h)
  then_update-eq-ok (err e) b bindings store later h = absurd (cc h)

  updated-IsWired :
      (elapsed : P.Float) (store : DataStore) (b c : GeneratorBinding P) (d : Device)
      → get store b.unit_id ≡ some d
      → IsWired P store c
      → IsWired P (updated elapsed store b d) c
  updated-IsWired elapsed store b c d found wired =
      let unit = (get-eq-some store b.unit_id d found).0 in
      holds-update store b.unit_id (update P elapsed b d).1.1 c.unit_id
        ((update-unit_id P elapsed b d).1 ∙ unit)
      ∙ wired

  -- A round over bindings of devices of the store, each with a slot of its own: if no update raises, every
  -- bound register shows the sample of its generator at that time.
  pub run_round-Shows :
      (elapsed : P.Float) (bindings : List (GeneratorBinding P)) (store : DataStore)
      → AreValid store
      → All (IsBinding P) bindings
      → All (IsWired P store) bindings
      → AreApart bindings
      → (run_round P elapsed bindings store).result ≡ ok tt
      → All (Shows elapsed (run_round P elapsed bindings store).store) bindings
  run_round-Shows elapsed [] store valid g wired apart done = tt
  run_round-Shows elapsed (b ∷ bindings) store valid g wired apart done =
      let (d, found) = get-holds store b.unit_id wired.0 in
      let later = run_round P elapsed bindings in
      let store' = updated elapsed store b d in
      let valid' = updated-valid elapsed store b d valid g.0 found in
      let o = update P elapsed b d in
      let step = run_round-found P elapsed b bindings store d found in
      let started = ap (λ r. r.result) (sym step) ∙ done in
      let (v, same, left, rest) = then_update-eq-ok o.0 o.1.0 bindings store' later started in
      let wired' = All-map (λ c. updated-IsWired elapsed store b c d found) bindings wired.1 in
      let others = run_round-Shows elapsed bindings store' valid' g.1 wired' apart.1 rest in
      let mine =
        run_round-elsewhere elapsed bindings store' b valid' g.1 apart.0
        ∙ shown-updated_self elapsed store b d v valid g.0 found same in
      subst (λ s. All (Shows elapsed s) (b ∷ bindings)) (sym (ap (λ r. r.store) step ∙ left))
        ((v, update-value P elapsed b d v same, mine), others)
