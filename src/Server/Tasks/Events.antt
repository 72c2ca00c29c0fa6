-- ===== src/Server/Tasks/Events.antt =====
-- The requests served and the bindings updated in an interleaving of the tasks of modbus_sim/server.py, in order, and
-- what they make of each device on its own.
use modbus_sim.Prelude.{
  ℕ, ◌≡◌, ◌≢◌, refl, sym, ap, subst, ◌∙◌, some, List, [], ◌∷◌, ◌++◌, Bytes, drop, ◌==◌,
  if◌then◌else◌, arith, Bool-cases, inl, inr,
}
use modbus_sim.Frame.Mbap.{MbapHeader}
use modbus_sim.Dispatcher.{process_pdu}
use modbus_sim.Datastore.Device.{Device}
use modbus_sim.Datastore.Store.{DataStore, get}
use modbus_sim.Datastore.Store as Store
use modbus_sim.Datastore.Store.Lookup.{get-update, get-eq-some}
use modbus_sim.Generators.Floats.{Runtime}
use modbus_sim.Generators.{GeneratorBinding, update}
use modbus_sim.Config.Wired.{update-unit_id}
use modbus_sim.Server.Connection.{process_frame}
use modbus_sim.Server.Connection.Frame.{get-process_frame, process_frame-device}
use modbus_sim.Server.Tasks.{System, Step, accepts, reads, serves, closes, ticks, Reach, here, next}

module _ (P : Runtime) where
  -- A frame that was processed, or an update of a binding.
  pub data Event : Type 0 where
    frame : MbapHeader → Bytes → Event
    tick : P.Float → GeneratorBinding P → Event

  abbrev pub unit_of : Event → ℕ
  unit_of (frame header adu) = header.unit_id
  unit_of (tick elapsed b) = b.unit_id

  -- What an event makes of the device of its unit.
  abbrev pub run_event : Event → Device → Device
  run_event (frame header adu) device =
      if header.protocol_id == 0 then (process_pdu device (drop 7 adu)).1 else device
  run_event (tick elapsed b) device = (update P elapsed b device).1.1

  -- The events for a unit, one after the other, on its device.
  abbrev pub replay : ℕ → List Event → Device → Device
  replay u [] device = device
  replay u (e ∷ events) device =
      replay u events (if unit_of e == u then run_event e device else device)

  abbrev pub events_of : {s t : System P} → Step P s t → List Event
  events_of (serves store before after bindings c header adu items q) = frame header adu ∷ []
  events_of (ticks store connections before after b device elapsed found) = tick elapsed b ∷ []
  events_of _ = []

  abbrev pub events : {s t : System P} → Reach P s t → List Event
  events here = []
  events (next r step) = events r ++ events_of step

  replay-append :
      (u : ℕ) (xs ys : List Event) (device : Device)
      → replay u (xs ++ ys) device ≡ replay u ys (replay u xs device)
  replay-append u [] ys device = refl
  replay-append u (x ∷ xs) ys device = replay-append u xs ys _

  process_frame-replay :
      (header : MbapHeader) (adu : Bytes) (store : DataStore) (u : ℕ) (device : Device)
      → get store u ≡ some device
      → get (process_frame header adu store).1 u ≡ some (replay u (frame header adu ∷ []) device)
  process_frame-replay header adu store u device found = elim (Bool-cases (header.unit_id == u)) [
    | inl hit ↦
        let same : u ≡ header.unit_id = ground arith in
        rw hit (
          subst
            (λ v.
              get (process_frame header adu store).1 v ≡ some (run_event (frame header adu) device))
            (sym same)
            (process_frame-device header adu store device (ap (get store) (sym same) ∙ found)))
    | inr there ↦
        let other : u ≢ header.unit_id = λ e. ground (arith, e) in
        rw there (get-process_frame header adu store u other ∙ found)
  ]

  update-replay :
      (elapsed : P.Float) (b : GeneratorBinding P) (store : DataStore) (u : ℕ)
      (held device : Device)
      → get store b.unit_id ≡ some held
      → get store u ≡ some device
      → get (Store.update store b.unit_id (update P elapsed b held).1.1) u
        ≡ some (replay u (tick elapsed b ∷ []) device)
  update-replay elapsed b store u held device has found =
      let (unit, in_store) = get-eq-some store b.unit_id held has in
      let (kept, same) = update-unit_id P elapsed b held in
      get-update store b.unit_id (update P elapsed b held).1.1 u (same ∙ unit)
      ∙ elim (Bool-cases (b.unit_id == u)) [
        | inl hit ↦
            let e : b.unit_id ≡ u = ground arith in
            let d : held ≡ device = cc (has, found, ap (get store) e) in rw (hit, in_store, d) refl
        | inr there ↦ rw there found
      ]

  Step-replay :
      {s t : System P} (step : Step P s t) (u : ℕ) (device : Device)
      → get s.store u ≡ some device
      → get t.store u ≡ some (replay u (events_of step) device)
  Step-replay (accepts s) u device found = found
  Step-replay (reads store before after bindings c chunk b q r) u device found = found
  Step-replay (serves store before after bindings c header adu items q) u device found =
      process_frame-replay header adu store u device found
  Step-replay (closes store before after bindings c) u device found = found
  Step-replay (ticks store connections before after b held elapsed has) u device found =
      update-replay elapsed b store u held device has found

  -- A step after the events of `past`.
  pub Step-replay-append :
      {s t : System P} (step : Step P s t) (past : List Event) (u : ℕ) (device : Device)
      → get s.store u ≡ some (replay u past device)
      → get t.store u ≡ some (replay u (past ++ events_of step) device)
  Step-replay-append step past u device found =
      Step-replay step u (replay u past device) found
      ∙ ap some (sym (replay-append u past (events_of step) device))

  -- In every interleaving of the tasks, the device of a unit is what the requests served for that unit and the
  -- updates of its bindings make of it, one at a time and in the order in which they were served, whatever
  -- is done for the other units.
  pub Reach-replay :
      {s t : System P} (r : Reach P s t) (u : ℕ) (device : Device)
      → get s.store u ≡ some device
      → get t.store u ≡ some (replay u (events r) device)
  Reach-replay here u device found = found
  Reach-replay (next r step) u device found =
      Step-replay-append step (events r) u device (Reach-replay r u device found)
