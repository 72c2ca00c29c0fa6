-- ===== src/Server/Tasks/Rounds.antt =====
-- `_run_generators` of modbus_sim/server.py: the rounds of the generator task. A device's lock is free whenever the task
-- wants it, since no task waits while it holds one, so that a round is done in one go. The times are those that
-- the clock gave after each sleep.
pub mod Update
pub mod Slots
pub mod Schedule
pub mod Scheduled
use modbus_sim.Prelude.{
  ◌≡◌, refl, ℕ, Option, none, some, List, [], ◌∷◌, ◌++◌, append_assoc, Option-cases, inl, inr,
}
use modbus_sim.Result.{Result, ok, err}
use modbus_sim.Datastore.Device.{Device}
use modbus_sim.Datastore.Store.{DataStore, get}
use modbus_sim.Datastore.Store as Store
use modbus_sim.Generators.Floats.{Runtime}
use modbus_sim.Generators.{GeneratorBinding, update}
use modbus_sim.Server.Tasks.{Connection, System, system, ticks, Reach, here, next}
use modbus_sim.Server.Tasks.Alone.{Reach-trans}

module _ (P : Runtime) where
  -- What a round came to: what it raised, if it did, with the bindings and the store.
  pub record Round : Type 0 where
    pub result : Result (Unit {0})
    pub bindings : List (GeneratorBinding P)
    pub store : DataStore

  -- An update that raises ends the round, and its generator has moved.
  abbrev then_update :
      Result ℕ
      → GeneratorBinding P
      → List (GeneratorBinding P)
      → DataStore
      → (DataStore → Round)
      → Round
  then_update (ok value) binding bindings store later =
      let round = later store in record round { bindings = binding ∷ round.bindings }
  then_update (err e) binding bindings store later = record {
    result = err e;
    bindings = binding ∷ bindings;
    store = store;
  }

  update_found :
      P.Float
      → GeneratorBinding P
      → List (GeneratorBinding P)
      → DataStore
      → Option Device
      → (DataStore → Round)
      → Round
  update_found elapsed binding bindings store none later =
      let round = later store in record round { bindings = binding ∷ round.bindings }
  update_found elapsed binding bindings store (some device) later =
      let (result, (binding', device')) = update P elapsed binding device in
      then_update result binding' bindings (Store.update store binding.unit_id device') later

  -- The `for` over the bindings. A binding holds its device, which the store has at its unit id, so that
  -- none is missing.
  unfoldable pub run_round : P.Float → List (GeneratorBinding P) → DataStore → Round
  unfolding update_found
  run_round elapsed [] store = record { result = ok tt; bindings = []; store = store }
  run_round elapsed (binding ∷ bindings) store =
      update_found elapsed binding bindings store (get store binding.unit_id)
        (run_round elapsed bindings)

  -- The task goes on until a round raises.
  abbrev then_round :
      Result (Unit {0}) → Round → (List (GeneratorBinding P) → DataStore → Round) → Round
  then_round (ok _) round later = later round.bindings round.store
  then_round (err e) round later = round

  -- `_run_generators`, for the times at which it woke up.
  unfoldable pub run_generators : List P.Float → List (GeneratorBinding P) → DataStore → Round
  run_generators [] bindings store = record { result = ok tt; bindings = bindings; store = store }
  run_generators (elapsed ∷ times) bindings store =
      let round = run_round elapsed bindings store in
      then_round round.result round (run_generators times)

  -- A round whose first binding has its device.
  pub run_round-found :
      (elapsed : P.Float) (b : GeneratorBinding P) (bindings : List (GeneratorBinding P))
      (store : DataStore) (d : Device)
      → get store b.unit_id ≡ some d
      → run_round elapsed (b ∷ bindings) store
        ≡ then_update
            (update P elapsed b d).0
            (update P elapsed b d).1.0
            bindings
            (Store.update store b.unit_id (update P elapsed b d).1.1)
            (run_round elapsed bindings)
  unfolding run_round update_found
  run_round-found elapsed b bindings store d found = rw found refl
