-- ===== src/Server/Lifecycle.antt =====
-- `ModbusServer` of modbus_sim/server.py from its construction to its end: `__init__`, `start`, `sockets` and
-- `serve_forever`. What the event loop does is given: `bind` is `asyncio.start_server` on a host and a port, with
-- the addresses of the sockets that it opens, and `left` is the system as the interleaving of the tasks of
-- Server.Tasks left it.
pub mod Stopped
use Prim.Native.String.{String}
use modbus_sim.Prelude.{ℕ, Option, none, some, List, [], ◌∷◌}
use modbus_sim.Result.{Exception, Result, ok, err}
use modbus_sim.Datastore.Store.{DataStore}
use modbus_sim.Generators.Floats.{Runtime}
use modbus_sim.Generators.{GeneratorBinding}
use modbus_sim.Server.Tasks.{System}

-- How a task ended: by CancelledError, or by another exception.
pub data TaskEnd : Type 0 where
  cancelled : TaskEnd
  raised : Exception → TaskEnd

-- A task that was cancelled is awaited with CancelledError suppressed, while `ending` is on its way out. A task that
-- had raised raises its exception in its place.
abbrev pub awaited : Option TaskEnd → TaskEnd → TaskEnd
awaited none ending = ending
awaited (some cancelled) ending = ending
awaited (some (raised e)) ending = raised e

module _ (P : Runtime) where
  -- `server` has the addresses of the sockets of `_server`, which has none once it is closed.
  pub record ModbusServer : Type 0 where
    pub store : DataStore
    pub host : String
    pub port : ℕ
    pub bindings : List (GeneratorBinding P)
    pub server : Option (List String)

  -- `__init__`
  unfoldable pub make_server : DataStore → String → ℕ → List (GeneratorBinding P) → ModbusServer
  make_server store host port bindings = record {
    store = store;
    host = host;
    port = port;
    bindings = bindings;
    server = none;
  }

  addresses_of : Option (List String) → List String
  addresses_of none = []
  addresses_of (some addresses) = addresses

  unfoldable pub sockets : ModbusServer → List String
  unfolding addresses_of
  sockets s = addresses_of s.server

  started : ModbusServer → Result (List String) → Result (List String) × ModbusServer
  started s (err e) = (err e, s)
  started s (ok addresses) = (ok addresses, record s { server = some addresses })

  -- `start`, with the addresses that it logs.
  unfoldable pub start :
      (String → ℕ → Result (List String)) → ModbusServer → Result (List String) × ModbusServer
  unfolding started
  start bind s = started s (bind s.host s.port)

  -- `if self._server is None: await self.start()`
  ensure_started :
      (String → ℕ → Result (List String))
      → ModbusServer
      → Option (List String)
      → Result (List String) × ModbusServer
  ensure_started bind s none = start bind s
  ensure_started bind s (some addresses) = (ok addresses, s)

  -- There is a generator task if there are bindings for it.
  abbrev pub generator_task : List (GeneratorBinding P) → TaskEnd → Option TaskEnd
  generator_task [] ending = none
  generator_task (b ∷ bindings) ending = some ending

  -- What `serve_forever` raised, and the server after it.
  pub record Stop : Type 0 where
    pub ending : TaskEnd
    pub after : ModbusServer

  module _ (listener generators : TaskEnd) (left : System P) where
    serve_started : Result (List String) × ModbusServer → Stop
    serve_started (err e, s) = record { ending = raised e; after = s }
    serve_started (ok addresses, s) = record {
      ending = awaited (generator_task s.bindings generators) listener;
      after = record s { store = left.store; bindings = left.bindings; server = some [] };
    }

    -- `serve_forever`, whose `self._server.serve_forever()` ended by `listener` and whose generator task ends by
    -- `generators` when it is cancelled.
    unfoldable pub serve_forever : (String → ℕ → Result (List String)) → ModbusServer → Stop
    unfolding ensure_started serve_started
    serve_forever bind s = serve_started (ensure_started bind s s.server)
