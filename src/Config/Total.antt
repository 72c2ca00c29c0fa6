-- ===== src/Config/Total.antt =====
-- The steps of `build_datastore` that may raise, on specifications that pass validation.
use modbus_sim.Prelude.{
  ℕ, ◌+◌, ◌<◌, ◌≤◌, ◌≡◌, refl, sym, ◌∙◌, subst, true, false, Option, some, none, List, [], ◌∷◌, All,
  arith, ltb, length, length-map,
}
use modbus_sim.Result.{ok, Gives}
use modbus_sim.Datastore.Value.{Value, num}
use modbus_sim.Datastore.Block.{MemoryBlock, make_block, set_slot, initial}
use modbus_sim.Generators.Floats.{Runtime}
use modbus_sim.Generators.{
  Generator, GeneratorBinding, Target, holding, input, target_block, with_block, make_generator,
  sample, update,
}
use modbus_sim.Generators.Update.{with_block-unit_id}
use modbus_sim.Datastore.Device.{Device}
use modbus_sim.Config.{
  fits_in, values_of, GeneratorSpec, RegionSpec, DeviceSpec, build_bits, build_words, build_blocks,
  bind_region, build_device,
}

length-values_of :
    (size : ℕ) (put : ℕ → Value) (init : Option (List ℕ))
    → fits_in size init ≡ true
    → length (initial (values_of put init)) ≤ size
length-values_of size put none h = omega arith
length-values_of size put (some init) h = ground (arith, length-map init put)

make_block_total :
    (size : ℕ) (values : Option (List Value)) (fill : Value)
    → length (initial values) ≤ size
    → Gives (λ b. b.size ≡ size) (make_block size values fill)
unfolding make_block
make_block_total size values fill h =
    let fits : ltb size (length (initial values)) ≡ false = ground (arith, h) in
    rw fits (_, refl, refl)

set_slot_total :
    (b : MemoryBlock) (address : ℕ) (v : Value)
    → address < b.size
    → Gives (λ b'. b'.size ≡ b.size) (set_slot b address v)
unfolding set_slot
set_slot_total b address v h =
    let inside : ltb b.size (address + 1) ≡ false = ground (arith, h) in rw inside (_, refl, refl)

module _ (P : Runtime) where
  -- A generator that is made, and a first sample that is a number.
  pub record IsSpec (spec : GeneratorSpec P) : Type 0 where
    pub generator : Generator P
    pub made : make_generator P spec.fn spec.args ≡ ok generator
    pub value : ℕ
    pub sampled : (sample P generator P.zero).0 ≡ ok value

  pub record HasRoom (region : RegionSpec P) : Type 0 where
    pub fits : fits_in region.size region.init ≡ true
    pub placed : All (λ spec. spec.addr < region.size) region.generators

  -- The same unit id, and register regions of the same sizes.
  pub record IsLike (d d' : Device) : Type 0 where
    pub unit_id : d'.unit_id ≡ d.unit_id
    pub sizes : (t : Target) → (target_block t d').size ≡ (target_block t d).size

  with_block-size :
      (t u : Target) (d : Device) (b : MemoryBlock)
      → b.size ≡ (target_block t d).size
      → (target_block u (with_block t d b)).size ≡ (target_block u d).size
  with_block-size holding holding d b h = h
  with_block-size holding input d b h = refl
  with_block-size input holding d b h = refl
  with_block-size input input d b h = h

  with_block-IsLike :
      (t : Target) (d : Device) (b : MemoryBlock)
      → b.size ≡ (target_block t d).size
      → IsLike d (with_block t d b)
  with_block-IsLike t d b h = record {
    unit_id = with_block-unit_id t d b;
    sizes = λ u. with_block-size t u d b h;
  }

  update_total :
      (binding : GeneratorBinding P) (d : Device) (v : ℕ)
      → (sample P binding.generator P.zero).0 ≡ ok v
      → binding.address < (target_block binding.target d).size
      → ((update P P.zero binding d).0 ≡ ok v) × IsLike d (update P P.zero binding d).1.1
  unfolding update
  update_total binding d v sampled inside =
      let (b, same, size) =
        set_slot_total (target_block binding.target d) binding.address (num v) inside in
      rw (sampled, same) (refl, with_block-IsLike binding.target d b size)

  IsLike-trans : {d e f : Device} → IsLike d e → IsLike e f → IsLike d f
  IsLike-trans h k = record { unit_id = k.unit_id ∙ h.unit_id; sizes = λ t. k.sizes t ∙ h.sizes t }

  All-placed :
      (specs : List (GeneratorSpec P)) (n m : ℕ)
      → m ≡ n
      → All (λ spec. spec.addr < n) specs
      → All (λ spec. spec.addr < m) specs
  All-placed specs n m e h = subst (λ k. All (λ spec. spec.addr < k) specs) (sym e) h

  bind_region-Gives :
      (t : Target) (specs : List (GeneratorSpec P)) (d : Device)
      → All IsSpec specs
      → All (λ spec. spec.addr < (target_block t d).size) specs
      → Gives (λ o. IsLike d o.1) (bind_region P t specs d)
  unfolding bind_region
  bind_region-Gives t [] d made placed =
      (([], d), refl, record { unit_id = refl; sizes = λ t. refl })
  bind_region-Gives t (spec ∷ specs) d made placed =
      let one = made.0 in
      let binding : GeneratorBinding P = record {
        unit_id = d.unit_id;
        target = t;
        address = spec.addr;
        generator = one.generator;
      } in
      let (seeded, like) = update_total binding d one.value one.sampled placed.0 in
      let d' = (update P P.zero binding d).1.1 in
      let (more, bound, later) = bind_region-Gives t specs d' made.1 (
        All-placed specs (target_block t d).size (target_block t d').size (like.sizes t)
          placed.1) in
      rw (one.made, seeded, bound) (_, refl, IsLike-trans like later)

  -- The blocks and the bindings of one specification.
  pub record IsDeviceSpec (spec : DeviceSpec P) : Type 0 where
    pub coils : HasRoom spec.coils
    pub discrete_inputs : HasRoom spec.discrete_inputs
    pub holding_registers : HasRoom spec.holding_registers
    pub input_registers : HasRoom spec.input_registers

  build_bits-Gives :
      (region : RegionSpec P)
      → HasRoom region
      → Gives (λ b. b.size ≡ region.size) (build_bits P region)
  unfolding build_bits
  build_bits-Gives region h =
      make_block_total region.size _ _ (length-values_of region.size _ region.init h.fits)

  build_words-Gives :
      (region : RegionSpec P)
      → HasRoom region
      → Gives (λ b. b.size ≡ region.size) (build_words P region)
  unfolding build_words
  build_words-Gives region h =
      make_block_total region.size _ _ (length-values_of region.size num region.init h.fits)

  -- The regions of a device are as large as its specification says.
  pub record IsOf (spec : DeviceSpec P) (d : Device) : Type 0 where
    pub unit_id : d.unit_id ≡ spec.unit_id
    pub holding_registers : d.holding_registers.size ≡ spec.holding_registers.size
    pub input_registers : d.input_registers.size ≡ spec.input_registers.size

  build_blocks-Gives :
      (spec : DeviceSpec P) → IsDeviceSpec spec → Gives (IsOf spec) (build_blocks P spec)
  unfolding build_blocks
  build_blocks-Gives spec h =
      let (c, cs, _) = build_bits-Gives spec.coils h.coils in
      let (i, is, _) = build_bits-Gives spec.discrete_inputs h.discrete_inputs in
      let (r, rs, large) = build_words-Gives spec.holding_registers h.holding_registers in
      let (q, qs, wide) = build_words-Gives spec.input_registers h.input_registers in
      rw (cs, is, rs, qs)
        (_, refl, record { unit_id = refl; holding_registers = large; input_registers = wide })

  -- The generators of a specification can be made and sampled.
  abbrev pub AreSpecs : DeviceSpec P → Type 0
  AreSpecs spec =
      All IsSpec spec.holding_registers.generators × All IsSpec spec.input_registers.generators

  pub build_device-Gives :
      (spec : DeviceSpec P)
      → IsDeviceSpec spec
      → AreSpecs spec
      → Gives (λ o. o.1.unit_id ≡ spec.unit_id) (build_device P spec)
  unfolding build_device
  build_device-Gives spec h s =
      let (d, built, of) = build_blocks-Gives spec h in
      let (one, bound, like) = bind_region-Gives holding spec.holding_registers.generators d s.0 (
        All-placed _ spec.holding_registers.size _ of.holding_registers
          h.holding_registers.placed) in
      let (two, also, later) = bind_region-Gives input spec.input_registers.generators one.1 s.1 (
        All-placed _ spec.input_registers.size _ (like.sizes input ∙ of.input_registers)
          h.input_registers.placed) in
      rw (built, bound, also) (_, refl, later.unit_id ∙ like.unit_id ∙ of.unit_id)
