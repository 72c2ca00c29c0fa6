-- ===== src/Server/Tasks.antt =====
-- The tasks of the event loop of modbus_sim/server.py: one `_handle_client` for each connection and `_run_generators`
-- take turns at their `await`s. A frame is processed, and a binding updated, under its device's lock with no
-- `await` in between, so that each is one step. `feed` works on its connection's own buffer, so that the
-- frames of a read may be queued at once.
pub mod Sound
pub mod Served
pub mod Alone
pub mod Events
pub mod Answers
pub mod Rounds
use modbus_sim.Prelude.{Option, none, some, List, [], ◌∷◌, ◌++◌, ◌≡◌, Bytes, IsBytes}
use modbus_sim.Result.{Exception, Result, ok, err}
use modbus_sim.Frame.Mbap.{MbapHeader}
use modbus_sim.Datastore.Device.{Device}
use modbus_sim.Datastore.Store.{DataStore, get}
use modbus_sim.Datastore.Store as Store
use modbus_sim.Generators.Floats.{Runtime}
use modbus_sim.Generators.{GeneratorBinding, update}
use modbus_sim.Server.Framer.{Item, feed}
use modbus_sim.Server.Connection.{process_frame}

-- A connection: the bytes read from its peer, the framer's buffer, the frames of the last read that wait to be
-- processed, the exception raised or to be raised after them, and the ADUs written.
pub record Connection : Type 0 where
  pub received : Bytes
  pub buffer : Bytes
  pub queue : List Item
  pub raised : Option Exception
  pub written : List Bytes

abbrev pub accepted : Connection
accepted = record { received = []; buffer = []; queue = []; raised = none; written = [] }

-- After a read.
abbrev pub with_read : Connection → Bytes → Connection
with_read c chunk =
    let fed = feed c.buffer chunk in
    record c {
      received = c.received ++ chunk;
      buffer = fed.buffer;
      queue = fed.frames;
      raised = fed.raised;
    }

-- After a frame was processed, with the frames that are left.
abbrev pub with_result : Connection → List Item → Result (Option Bytes) → Connection
with_result c items (ok none) = record c { queue = items }
with_result c items (ok (some adu)) = record c { queue = items; written = c.written ++ adu ∷ [] }
with_result c items (err e) = record c { queue = []; raised = some e }

module _ (P : Runtime) where
  pub record System : Type 0 where
    pub store : DataStore
    pub connections : List Connection
    pub bindings : List (GeneratorBinding P)

  abbrev pub system : DataStore → List Connection → List (GeneratorBinding P) → System
  system store connections bindings = record {
    store = store;
    connections = connections;
    bindings = bindings;
  }

  -- One step of one task.
  pub data Step : System → System → Type 0 where
    -- A client connects.
    accepts : (s : System) → Step s (record s { connections = s.connections ++ accepted ∷ [] })
    -- A connection with no frame left reads a chunk.
    reads :
        (store : DataStore) (before after : List Connection) (bindings : List (GeneratorBinding P))
        (c : Connection) (chunk : Bytes)
        → IsBytes chunk
        → c.queue ≡ []
        → c.raised ≡ none
        → Step
            (system store (before ++ c ∷ after) bindings)
            (system store (before ++ with_read c chunk ∷ after) bindings)
    -- A connection processes its next frame.
    serves :
        (store : DataStore) (before after : List Connection) (bindings : List (GeneratorBinding P))
        (c : Connection) (header : MbapHeader) (adu : Bytes) (items : List Item)
        → c.queue ≡ (header, adu) ∷ items
        → Step (system store (before ++ c ∷ after) bindings) (
            system
              (process_frame header adu store).1
              (before ++ with_result c items (process_frame header adu store).0 ∷ after)
              bindings)
    -- A connection is closed.
    closes :
        (store : DataStore) (before after : List Connection) (bindings : List (GeneratorBinding P))
        (c : Connection)
        → Step
            (system store (before ++ c ∷ after) bindings)
            (system store (before ++ after) bindings)
    -- The generator task updates a binding.
    ticks :
        (store : DataStore) (connections : List Connection)
        (before after : List (GeneratorBinding P)) (b : GeneratorBinding P) (device : Device)
        (elapsed : P.Float)
        → get store b.unit_id ≡ some device
        → Step (system store connections (before ++ b ∷ after)) (
            system
              (Store.update store b.unit_id (update P elapsed b device).1.1)
              connections
              (before ++ (update P elapsed b device).1.0 ∷ after))

  pub data Reach (s : System) : System → Type 0 where
    here : Reach s s
    next : {t u : System} → Reach s t → Step t u → Reach s u
