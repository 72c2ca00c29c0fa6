-- ===== src/Config/Wired.antt =====
-- The units of the bindings that `build_datastore` of modbus_sim/config.py makes.
use modbus_sim.Prelude.{
  ℕ, true, ◌≡◌, refl, sym, subst, ◌∙◌, List, [], ◌∷◌, All, All-append, All-map, arith,
}
use modbus_sim.Result.{Result, ok, err, Returns, ok-Returns, bind-Returns, any-Returns}
use modbus_sim.Datastore.Device.{Device}
use modbus_sim.Datastore.Block.{MemoryBlock}
use modbus_sim.Datastore.Store.{DataStore, holds, make_store}
use modbus_sim.Datastore.Store.Lookup.{HasUniqueUnits, make_store-HasUniqueUnits}
use modbus_sim.Generators.Floats.{Runtime}
use modbus_sim.Generators.{
  GeneratorBinding, Target, holding, input, make_generator, slot_written, write_value, update,
}
use modbus_sim.Generators.Update.{with_block-unit_id}
use modbus_sim.Config.{
  GeneratorSpec, DeviceSpec, build_blocks, bind_region, build_device, build_all, build_datastore,
}

module _ (P : Runtime) where
  slot_written-unit_id :
      (b : GeneratorBinding P) (d : Device) (v : ℕ) (r : Result MemoryBlock)
      → (slot_written P b d v r).1.unit_id ≡ d.unit_id
  slot_written-unit_id b d v (ok block) = with_block-unit_id b.target d block
  slot_written-unit_id b d v (err e) = refl

  write_value-unit_id :
      (b : GeneratorBinding P) (d : Device) (r : Result ℕ)
      → (write_value P b d r).1.unit_id ≡ d.unit_id
  write_value-unit_id b d (ok v) = slot_written-unit_id b d v _
  write_value-unit_id b d (err e) = refl

  -- An update keeps the unit id of its binding and of its device.
  pub update-unit_id :
      (elapsed : P.Float) (b : GeneratorBinding P) (d : Device)
      → ((update P elapsed b d).1.0.unit_id ≡ b.unit_id)
        × ((update P elapsed b d).1.1.unit_id ≡ d.unit_id)
  unfolding update
  update-unit_id elapsed b d = (refl, write_value-unit_id b d _)

  -- Bindings of one unit, with its device.
  abbrev IsFor : ℕ → List (GeneratorBinding P) × Device → Type 0
  IsFor u o = All (λ b. b.unit_id ≡ u) o.0 × (o.1.unit_id ≡ u)

  bind_region-IsFor :
      (t : Target) (specs : List (GeneratorSpec P)) (d : Device)
      → Returns (IsFor d.unit_id) (bind_region P t specs d)
  unfolding bind_region
  bind_region-IsFor t [] d = ok-Returns (IsFor d.unit_id) ([], d) (tt, refl)
  bind_region-IsFor t (spec ∷ specs) d =
      bind-Returns (λ _. Unit {0}) (IsFor d.unit_id) (make_generator P spec.fn spec.args)
        (any-Returns _)
        (λ g _.
          let binding : GeneratorBinding P = record {
            unit_id = d.unit_id;
            target = t;
            address = spec.addr;
            generator = g;
          } in
          let (kept, same) = update-unit_id P.zero binding d in
          let o = update P P.zero binding d in
          bind-Returns (λ _. Unit {0}) (IsFor d.unit_id) o.0 (any-Returns o.0)
            (λ _ _.
              bind-Returns (IsFor o.1.1.unit_id) (IsFor d.unit_id) (bind_region P t specs o.1.1)
                (bind_region-IsFor t specs o.1.1)
                (λ more h. ok-Returns (IsFor d.unit_id) _ (
                  subst (λ u. IsFor u (o.1.0 ∷ more.0, more.1)) same
                    ((kept ∙ sym same, h.0), h.1)))))

  build_device-IsFor :
      (spec : DeviceSpec P) → Returns (λ o. IsFor o.1.unit_id o) (build_device P spec)
  unfolding build_device
  build_device-IsFor spec =
      let Q = λ (o : List (GeneratorBinding P) × Device). IsFor o.1.unit_id o in
      bind-Returns (λ _. Unit {0}) Q (build_blocks P spec) (any-Returns _)
        (λ d _.
          bind-Returns (IsFor d.unit_id) Q
            (bind_region P holding spec.holding_registers.generators d)
            (bind_region-IsFor holding _ d)
            (λ on_holding h.
              bind-Returns (IsFor on_holding.1.unit_id) Q
                (bind_region P input spec.input_registers.generators on_holding.1)
                (bind_region-IsFor input _ on_holding.1)
                (λ on_input i. ok-Returns Q _ (
                  All-append (λ b. b.unit_id ≡ on_input.1.unit_id) on_holding.0 on_input.0
                      (subst (λ u. All (λ b. b.unit_id ≡ u) on_holding.0) (sym (i.1 ∙ h.1)) h.0)
                      (subst (λ u. All (λ b. b.unit_id ≡ u) on_input.0) (sym i.1) i.0),
                  refl,
                ))))

  -- The unit of a binding is one of a collection.
  abbrev pub IsWired : DataStore → GeneratorBinding P → Type 0
  IsWired store binding = holds store binding.unit_id ≡ true

  head-IsWired :
      (d : Device) (store : DataStore) (b : GeneratorBinding P)
      → b.unit_id ≡ d.unit_id
      → IsWired (d ∷ store) b
  unfolding holds
  head-IsWired d store b same = ground (arith, same)

  tail-IsWired :
      (d : Device) (store : DataStore) (b : GeneratorBinding P)
      → IsWired store b
      → IsWired (d ∷ store) b
  unfolding holds
  tail-IsWired d store b h = ground (arith, h)

  AreWired : List (GeneratorBinding P) × List Device → Type 0
  AreWired o = All (IsWired o.1) o.0

  build_all-AreWired : (specs : List (DeviceSpec P)) → Returns AreWired (build_all P specs)
  unfolding build_all AreWired
  build_all-AreWired [] = ok-Returns AreWired ([], []) tt
  build_all-AreWired (spec ∷ specs) =
      let Q = λ (o : List (GeneratorBinding P) × Device). IsFor o.1.unit_id o in
      bind-Returns Q AreWired (build_device P spec) (build_device-IsFor spec) (λ one h.
        bind-Returns AreWired AreWired (build_all P specs) (build_all-AreWired specs) (λ more i.
          ok-Returns AreWired _ (
            All-append (IsWired (one.1 ∷ more.1)) one.0 more.0
              (All-map (head-IsWired one.1 more.1) one.0 h.0)
              (All-map (tail-IsWired one.1 more.1) more.0 i))))

  -- Every binding that `build_datastore` makes is for a device of the store that it makes.
  pub build_datastore-AreWired :
      (specs : List (DeviceSpec P)) {store : DataStore} {bindings : List (GeneratorBinding P)}
      → build_datastore P specs ≡ ok (store, bindings)
      → All (IsWired store) bindings
  unfolding build_datastore AreWired
  build_datastore-AreWired specs built =
      let Q = λ (o : DataStore × List (GeneratorBinding P)). All (IsWired o.0) o.1 in
      bind-Returns AreWired Q (build_all P specs) (build_all-AreWired specs)
        (λ all h.
          bind-Returns (λ store. HasUniqueUnits store × (store ≡ all.1)) Q (make_store all.1)
            (λ store. make_store-HasUniqueUnits all.1)
            (λ store made. ok-Returns Q _ (subst (λ s. All (IsWired s) all.0) (sym made.1) h)))
        _ built
