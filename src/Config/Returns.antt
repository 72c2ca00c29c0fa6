-- ===== src/Config/Returns.antt =====
-- When `build_datastore` of modbus_sim/config.py returns, and what.
use modbus_sim.Prelude.{ℕ, ◌<◌, ◌≡◌, refl, true, false, not, List, [], ◌∷◌, All, arith, ltb, ltb→lt}
use modbus_sim.Result.{ok, Gives, then-eq-ok}
use modbus_sim.Datastore.Device.{Device}
use modbus_sim.Datastore.Store.{DataStore, holds}
use modbus_sim.Datastore.Store.Lookup.{HasUniqueUnits}
use modbus_sim.Datastore.Store.Make.{make_store_total}
use modbus_sim.Generators.Floats.{Runtime}
use modbus_sim.Generators.{GeneratorBinding}
use modbus_sim.Config.{
  require, fits_in, member, GeneratorSpec, RegionSpec, DeviceSpec, check_all, check_region,
  check_device, check_config, check_bits, check_words, unique_unit_ids, build_all, build_datastore,
}
use modbus_sim.Config.Valid.{require-eq-ok}
use modbus_sim.Config.Build.{IsBuilt, build_datastore-IsBuilt}
use modbus_sim.Config.Total.{HasRoom, IsDeviceSpec, AreSpecs, build_device-Gives}

module _ (P : Runtime) where
  check_all-placed :
      (size : ℕ) (specs : List (GeneratorSpec P))
      → check_all (λ spec. require (ltb spec.addr size)) specs ≡ ok tt
      → All (λ spec. spec.addr < size) specs
  check_all-placed size [] h = tt
  check_all-placed size (spec ∷ specs) h =
      let (first, rest) = then-eq-ok (require (ltb spec.addr size)) _ h in
      (ltb→lt spec.addr size (require-eq-ok _ first), check_all-placed size specs rest)

  check_region-HasRoom : (region : RegionSpec P) → check_region P region ≡ ok tt → HasRoom P region
  unfolding check_region
  check_region-HasRoom region h =
      let (rest, placed) =
        then-eq-ok _ (check_all (λ spec. require (ltb spec.addr region.size)) region.generators)
          h in
      let (_, fits) = then-eq-ok _ (require (fits_in region.size region.init)) rest in
      record {
        fits = require-eq-ok _ fits;
        placed = check_all-placed region.size region.generators placed;
      }

  check_device-IsDeviceSpec :
      (spec : DeviceSpec P) → check_device P spec ≡ ok tt → IsDeviceSpec P spec
  unfolding check_device
  check_device-IsDeviceSpec spec h =
      let (h8, _) = then-eq-ok _ (check_words P spec.input_registers) h in
      let (h7, _) = then-eq-ok _ (check_words P spec.holding_registers) h8 in
      let (h6, _) = then-eq-ok _ (check_bits P spec.discrete_inputs) h7 in
      let (h5, _) = then-eq-ok _ (check_bits P spec.coils) h6 in
      let (h4, input_ok) = then-eq-ok _ (check_region P spec.input_registers) h5 in
      let (h3, holding_ok) = then-eq-ok _ (check_region P spec.holding_registers) h4 in
      let (h2, discrete_ok) = then-eq-ok _ (check_region P spec.discrete_inputs) h3 in
      let (_, coils_ok) = then-eq-ok _ (check_region P spec.coils) h2 in
      record {
        coils = check_region-HasRoom spec.coils coils_ok;
        discrete_inputs = check_region-HasRoom spec.discrete_inputs discrete_ok;
        holding_registers = check_region-HasRoom spec.holding_registers holding_ok;
        input_registers = check_region-HasRoom spec.input_registers input_ok;
      }

  -- Devices with the unit ids of the specifications, in order.
  abbrev Matches : List (DeviceSpec P) → List Device → Type 0
  Matches [] [] = Unit
  Matches (spec ∷ specs) (d ∷ ds) = (d.unit_id ≡ spec.unit_id) × Matches specs ds
  Matches _ _ = ⊥

  unique_unit_ids-HasUniqueUnits :
      (seen : List ℕ) (specs : List (DeviceSpec P)) (devices : List Device)
      → Matches specs devices
      → unique_unit_ids P seen specs ≡ ok tt
      → HasUniqueUnits devices × ((u : ℕ) → member P u seen ≡ true → holds devices u ≡ false)
  unfolding unique_unit_ids holds
  unique_unit_ids-HasUniqueUnits seen [] [] m h = (tt, λ u s. refl)
  unique_unit_ids-HasUniqueUnits seen [] (d ∷ ds) m h = absurd m
  unique_unit_ids-HasUniqueUnits seen (spec ∷ specs) [] m h = absurd m
  unique_unit_ids-HasUniqueUnits seen (spec ∷ specs) (d ∷ ds) m h =
      let (fresh, rest) =
        then-eq-ok (require (not (member P spec.unit_id seen)))
          (unique_unit_ids P (spec.unit_id ∷ seen) specs) h in
      let unseen = require-eq-ok (not (member P spec.unit_id seen)) fresh in
      let (unique, avoided) =
        unique_unit_ids-HasUniqueUnits (spec.unit_id ∷ seen) specs ds m.1 rest in
      (
        (avoided d.unit_id (ground (arith, m.0)), unique),
        λ u s. ground (arith, m.0, unseen, avoided u (ground (arith, s)), s),
      )

  check_devices-Gives :
      (specs : List (DeviceSpec P))
      → check_all (check_device P) specs ≡ ok tt
      → All (AreSpecs P) specs
      → Gives (λ o. Matches specs o.1) (build_all P specs)
  unfolding build_all
  check_devices-Gives [] h s = (([], []), refl, tt)
  check_devices-Gives (spec ∷ specs) h s =
      let (first, rest) = then-eq-ok (check_device P spec) (check_all (check_device P) specs) h in
      let (one, built, unit) =
        build_device-Gives P spec (check_device-IsDeviceSpec spec first) s.0 in
      let (more, also, matches) = check_devices-Gives specs rest s.1 in
      rw (built, also) (_, refl, (unit, matches))

  -- For a validated configuration, the first sample of each generator of which is a number, `build_datastore` returns:
  -- a store of valid devices with different unit ids, and bindings whose generators keep their samples
  -- to 16 bits and their walks within bounds.
  pub build_datastore_total :
      (specs : List (DeviceSpec P))
      → check_config P specs ≡ ok tt
      → All (AreSpecs P) specs
      → (o : DataStore × List (GeneratorBinding P)) × (build_datastore P specs ≡ ok o) × IsBuilt P o
  unfolding build_datastore check_config
  build_datastore_total specs h s =
      let (devices_ok, units_ok) =
        then-eq-ok (check_all (check_device P) specs) (unique_unit_ids P [] specs) h in
      let (built, same, matches) = check_devices-Gives specs devices_ok s in
      let (unique, _) = unique_unit_ids-HasUniqueUnits [] specs built.1 matches units_ok in
      let returned : build_datastore P specs ≡ ok (built.1, built.0) =
        rw (same, make_store_total built.1 unique) refl in
      ((built.1, built.0), returned, build_datastore-IsBuilt P specs h returned)
