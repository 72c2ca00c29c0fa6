-- ===== src/Server/Tasks/Served.antt =====
-- The server of a configuration, and what it does for one device while the others are served.
use modbus_sim.Prelude.{ℕ, ◌≡◌, refl, ◌∙◌, ◌==◌, false, List, [], arith}
use modbus_sim.Result.{ok}
use modbus_sim.Datastore.Store.{DataStore, get}
use modbus_sim.Datastore.Store.Lookup.{get-update, get-eq-some, All-get}
use modbus_sim.Datastore.Device.{IsValid}
use modbus_sim.Generators.Floats.{Runtime}
use modbus_sim.Generators.{GeneratorBinding}
use modbus_sim.Generators.Update.{update-IsWritten}
use modbus_sim.Config.{DeviceSpec, check_config, build_datastore}
use modbus_sim.Config.Build.{IsBinding, build_datastore-IsBuilt}
use modbus_sim.Server.Connection.Frame.{get-process_frame}
use modbus_sim.Server.Tasks.{System, system, Step, accepts, reads, serves, closes, ticks, Reach}
use modbus_sim.Server.Tasks.Sound.{IsSound, All-member, Reach-IsSound}

module _ (P : Runtime) where
  -- A step that serves a frame for a unit, or updates a binding of it.
  abbrev pub Touches : {s t : System P} → Step P s t → ℕ → Type 0
  Touches (serves store before after bindings c header adu items q) u = u ≡ header.unit_id
  Touches (ticks store connections before after b device elapsed found) u = u ≡ b.unit_id
  Touches _ u = ⊥

  -- A step of a sound system changes no device but the one whose frame it serves or whose binding it
  -- updates.
  pub Step-get :
      {s t : System P} (step : Step P s t) (u : ℕ)
      → IsSound P s
      → ¬ Touches step u
      → get t.store u ≡ get s.store u
  Step-get (accepts s) u i h = refl
  Step-get (reads store before after bindings c chunk b q r) u i h = refl
  Step-get (serves store before after bindings c header adu items q) u i h =
      get-process_frame header adu store u h
  Step-get (closes store before after bindings c) u i h = refl
  Step-get (ticks store connections before after b device elapsed found) u i h =
      let (unit, held) = get-eq-some store b.unit_id device found in
      let (wrote, kept) =
        update-IsWritten P elapsed b device (All-member (IsBinding P) before after b i.bindings)
          (All-get IsValid store b.unit_id i.store found) in
      let other : (b.unit_id == u) ≡ false = ground (arith, h) in
      get-update store b.unit_id _ u (wrote.unit_id ∙ unit) ∙ rw other refl

  -- A server that starts from the store and the bindings of a validated configuration is sound at every point of
  -- every interleaving of its tasks.
  pub Reach-build_datastore :
      (specs : List (DeviceSpec P)) (store : DataStore) (bindings : List (GeneratorBinding P))
      {t : System P}
      → check_config P specs ≡ ok tt
      → build_datastore P specs ≡ ok (store, bindings)
      → Reach P (system P store [] bindings) t
      → IsSound P t
  Reach-build_datastore specs store bindings checked built reach =
      let b = build_datastore-IsBuilt P specs checked built in
      Reach-IsSound P reach (record { store = b.devices; connections = tt; bindings = b.bindings })
