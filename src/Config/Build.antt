-- ===== src/Config/Build.antt =====
-- The devices, bindings and store that `build_datastore` of modbus_sim/config.py makes.
use modbus_sim.Prelude.{◌≡◌, sym, subst, List, [], ◌∷◌, All, All-append}
use modbus_sim.Result.{ok, Returns, ok-Returns, bind-Returns, any-Returns, then-eq-ok}
use modbus_sim.Datastore.Device.{Device, IsValid}
use modbus_sim.Datastore.Store.{DataStore, make_store}
use modbus_sim.Datastore.Store.Lookup.{HasUniqueUnits, make_store-HasUniqueUnits}
use modbus_sim.Generators.Floats.{Runtime}
use modbus_sim.Generators.{GeneratorBinding, Target, holding, input, make_generator, update}
use modbus_sim.Generators.Valid.{IsGenerator, make_generator-IsGenerator}
use modbus_sim.Generators.Update.{update-IsWritten}
use modbus_sim.Config.{
  GeneratorSpec, DeviceSpec, check_config, check_all, check_device, build_blocks, bind_region,
  build_device, build_all, build_datastore, unique_unit_ids,
}
use modbus_sim.Config.Valid.{HasWords, check_all-HasWords, build_blocks-IsValid}

module _ (P : Runtime) where
  -- A binding whose generator is one.
  abbrev pub IsBinding : GeneratorBinding P → Type 0
  IsBinding binding = IsGenerator P binding.generator

  abbrev pub IsBound : List (GeneratorBinding P) × Device → Type 0
  IsBound o = All IsBinding o.0 × IsValid o.1

  bind_region-IsBound :
      (t : Target) (specs : List (GeneratorSpec P)) (d : Device)
      → IsValid d
      → Returns IsBound (bind_region P t specs d)
  unfolding bind_region
  bind_region-IsBound t [] d v = ok-Returns IsBound ([], d) (tt, v)
  bind_region-IsBound t (spec ∷ specs) d v =
      bind-Returns (IsGenerator P) IsBound (make_generator P spec.fn spec.args)
        (λ g. make_generator-IsGenerator P spec.fn spec.args)
        (λ g hg.
          let binding : GeneratorBinding P = record {
            unit_id = d.unit_id;
            target = t;
            address = spec.addr;
            generator = g;
          } in
          let (wrote, kept) = update-IsWritten P P.zero binding d hg v in
          let o = update P P.zero binding d in
          bind-Returns (λ _. Unit {0}) IsBound o.0 (any-Returns o.0)
            (λ _ _.
              bind-Returns IsBound IsBound (bind_region P t specs o.1.1)
                (bind_region-IsBound t specs o.1.1 wrote.device)
                (λ more h. ok-Returns IsBound _ ((kept, h.0), h.1))))

  build_device-IsBound :
      (spec : DeviceSpec P) → HasWords P spec → Returns IsBound (build_device P spec)
  unfolding build_device
  build_device-IsBound spec w =
      bind-Returns IsValid IsBound (build_blocks P spec) (build_blocks-IsValid P spec w) (λ d v.
        bind-Returns IsBound IsBound (bind_region P holding spec.holding_registers.generators d)
          (bind_region-IsBound holding _ d v)
          (λ on_holding h.
            bind-Returns IsBound IsBound
              (bind_region P input spec.input_registers.generators on_holding.1)
              (bind_region-IsBound input _ on_holding.1 h.1)
              (λ on_input i.
                ok-Returns IsBound _ (All-append IsBinding on_holding.0 on_input.0 h.0 i.0, i.1))))

  abbrev pub AreBound : List (GeneratorBinding P) × List Device → Type 0
  AreBound o = All IsBinding o.0 × All IsValid o.1

  build_all-AreBound :
      (specs : List (DeviceSpec P)) → All (HasWords P) specs → Returns AreBound (build_all P specs)
  unfolding build_all
  build_all-AreBound [] w = ok-Returns AreBound ([], []) (tt, tt)
  build_all-AreBound (spec ∷ specs) w =
      bind-Returns IsBound AreBound (build_device P spec) (build_device-IsBound spec w.0) (λ one h.
        bind-Returns AreBound AreBound (build_all P specs) (build_all-AreBound specs w.1)
          (λ more i. ok-Returns AreBound _ (All-append IsBinding one.0 more.0 h.0 i.0, (h.1, i.1))))

  pub record IsBuilt (o : DataStore × List (GeneratorBinding P)) : Type 0 where
    pub devices : All IsValid o.0
    pub unique : HasUniqueUnits o.0
    pub bindings : All IsBinding o.1

  -- What `build_datastore` returns for a validated configuration is a store of valid devices with different unit
  -- ids, and bindings whose generators keep their samples to 16 bits and their walks within bounds.
  pub build_datastore-IsBuilt :
      (specs : List (DeviceSpec P)) {o : DataStore × List (GeneratorBinding P)}
      → check_config P specs ≡ ok tt
      → build_datastore P specs ≡ ok o
      → IsBuilt o
  unfolding build_datastore check_config
  build_datastore-IsBuilt specs {o} checked built =
      let (devices_ok, _) =
        then-eq-ok (check_all (check_device P) specs) (unique_unit_ids P [] specs) checked in
      bind-Returns AreBound IsBuilt (build_all P specs)
        (build_all-AreBound specs (check_all-HasWords P specs devices_ok))
        (λ all h.
          bind-Returns (λ store. HasUniqueUnits store × (store ≡ all.1)) IsBuilt (make_store all.1)
            (λ store. make_store-HasUniqueUnits all.1)
            (λ store made. ok-Returns IsBuilt _ (record {
              devices = subst (All IsValid) (sym made.1) h.1;
              unique = made.0;
              bindings = h.0;
            })))
        o built
