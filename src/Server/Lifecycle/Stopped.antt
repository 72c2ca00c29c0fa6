-- ===== src/Server/Lifecycle/Stopped.antt =====
-- A `ModbusServer` of modbus_sim/server.py after `serve_forever`.
use Prim.Native.String.{String}
use modbus_sim.Prelude.{ℕ, ◌≡◌, ◌≢◌, refl, List, [], ◌∷◌, inl, inr}
use modbus_sim.Result.{Exception, Result, ok, err, Result-cases}
use modbus_sim.Datastore.Store.{DataStore}
use modbus_sim.Generators.Floats.{Runtime}
use modbus_sim.Generators.{GeneratorBinding}
use modbus_sim.Config.{DeviceSpec, check_config, build_datastore}
use modbus_sim.Server.Connection.Frame.{AreValid}
use modbus_sim.Server.Tasks.{System, system, Reach, here}
use modbus_sim.Server.Tasks.Served.{Reach-build_datastore}
use modbus_sim.Server.Lifecycle.{
  TaskEnd, cancelled, raised, awaited, make_server, sockets, start, generator_task, Stop,
  serve_forever,
}

module _ (P : Runtime) where
  -- The one reason for which the server stopped: it could not listen, or its generator task had failed, or else
  -- the listener ended.
  pub data IsEnded (bound : Result (List String)) (bindings : List (GeneratorBinding P))
      (listener generators : TaskEnd) : TaskEnd → Type 0 where
    refused :
        (e : Exception) → bound ≡ err e → IsEnded bound bindings listener generators (raised e)
    failed :
        (addresses : List String) (e : Exception)
        → bound ≡ ok addresses
        → bindings ≢ []
        → generators ≡ raised e
        → IsEnded bound bindings listener generators (raised e)
    idle :
        (addresses : List String)
        → bound ≡ ok addresses
        → bindings ≡ []
        → IsEnded bound bindings listener generators listener
    stopped :
        (addresses : List String)
        → bound ≡ ok addresses
        → generators ≡ cancelled
        → IsEnded bound bindings listener generators listener

  pub record IsStopped (bound : Result (List String)) (bindings : List (GeneratorBinding P))
      (listener generators : TaskEnd) (s : Stop P) : Type 0 where
    pub ended : IsEnded bound bindings listener generators s.ending
    pub closed : sockets P s.after ≡ []
    pub devices : AreValid s.after.store

  awaited-IsEnded :
      (bound : Result (List String)) (addresses : List String)
      (bindings : List (GeneratorBinding P)) (listener generators : TaskEnd)
      → bound ≡ ok addresses
      → IsEnded bound bindings listener generators
          (awaited (generator_task P bindings generators) listener)
  awaited-IsEnded bound addresses [] listener generators h = idle addresses h refl
  awaited-IsEnded bound addresses (b ∷ bs) listener cancelled h = stopped addresses h refl
  awaited-IsEnded bound addresses (b ∷ bs) listener (raised e) h = failed addresses e h (cc) refl

  module _ (bind : String → ℕ → Result (List String)) (host : String) (port : ℕ)
      (listener generators : TaskEnd) (left : System P) where
    made-IsStopped :
        (store : DataStore) (bindings : List (GeneratorBinding P))
        → AreValid store
        → AreValid left.store
        → IsStopped
            (bind host port)
            bindings
            listener
            generators
            (serve_forever P listener generators left bind (make_server P store host port bindings))
    unfolding serve_forever make_server start sockets
    made-IsStopped store bindings valid kept = elim (Result-cases (bind host port)) [
      | inl (addresses, bound) ↦ rw bound (record {
        ended = awaited-IsEnded (ok addresses) addresses bindings listener generators refl;
        closed = refl;
        devices = kept;
      })
      | inr (e, failed_to) ↦
          rw failed_to (record { ended = refused e refl; closed = refl; devices = valid })
    ]

    -- A server of a validated configuration, whatever its tasks did in whatever order before it stopped: `serve_forever`
    -- ends by the exception of the bind where that failed; else by the exception of the generator task where
    -- there is one and it had raised; else as the listener ended. Nothing listens any more, and every device is
    -- valid.
    pub serve_forever-IsStopped :
        (specs : List (DeviceSpec P)) (store : DataStore) (bindings : List (GeneratorBinding P))
        → check_config P specs ≡ ok tt
        → build_datastore P specs ≡ ok (store, bindings)
        → Reach P (system P store [] bindings) left
        → IsStopped
            (bind host port)
            bindings
            listener
            generators
            (serve_forever P listener generators left bind (make_server P store host port bindings))
    serve_forever-IsStopped specs store bindings checked built reach =
        let first = Reach-build_datastore P specs store bindings checked built here in
        let last = Reach-build_datastore P specs store bindings checked built reach in
        made-IsStopped store bindings first.store last.store
