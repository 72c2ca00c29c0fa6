-- ===== src/Server/Tasks/Alone/Client.antt =====
-- `_handle_client` of modbus_sim/server.py as an execution of its tasks.
use modbus_sim.Prelude.{
  ◌≡◌, refl, sym, ◌∙◌, Option, none, some, List, [], ◌∷◌, ◌++◌, append-nil, append_assoc, Bytes,
  IsBytes, All,
}
use modbus_sim.Result.{Exception}
use modbus_sim.Datastore.Store.{DataStore}
use modbus_sim.Generators.Floats.{Runtime}
use modbus_sim.Generators.{GeneratorBinding}
use modbus_sim.Server.Framer.{feed}
use modbus_sim.Server.Connection.{Session, handle_chunk, then_read, handle_client}
use modbus_sim.Server.Tasks.{Connection, accepted, Reach, here}
use modbus_sim.Server.Tasks.Alone.{connection, at, Reach-trans, Reach-handle_chunk}

-- What a connection has received, from what it had, by reading chunks: all of them, if nothing was raised, else those up to
-- the one at which it stopped.
pub data IsRead : Bytes → List Bytes → Option Exception → Bytes → Type 0 where
  peer_closed : (had : Bytes) → IsRead had [] none had
  stopped : (had : Bytes) (unread : List Bytes) (e : Exception) → IsRead had unread (some e) had
  reads_one :
      (had chunk : Bytes) (chunks : List Bytes) (raised : Option Exception) (has : Bytes)
      → IsRead (had ++ chunk) chunks raised has
      → IsRead had (chunk ∷ chunks) raised has

module _ (P : Runtime) (before after : List Connection) (bindings : List (GeneratorBinding P)) where
  -- A connection that has read `chunks` and come to the end of a session.
  pub record HasRun (before_it : Connection) (chunks : List Bytes) (session : Session)
      (c : Connection) : Type 0 where
    pub received : IsRead before_it.received chunks session.raised c.received
    pub queue : c.queue ≡ []
    pub raised : c.raised ≡ session.raised
    pub written : c.written ≡ before_it.written ++ session.written

  -- The connection can read the chunks and come to the end of a session while the others wait.
  abbrev pub Runs : DataStore → Connection → List Bytes → Session → Type 0
  Runs store c chunks session =
      (d : Connection) × Reach P (at P before after bindings store c)
        (at P before after bindings session.store d)
      × HasRun c chunks session d

  then_read-Runs :
      (start : DataStore) (c : Connection) (chunk : Bytes) (chunks : List Bytes) (buffer : Bytes)
      (sent : List Bytes) (store : DataStore) (ends : Option Exception)
      (later : DataStore → Session)
      → Reach P (at P before after bindings start c) (
          at P before after bindings store
            (connection (c.received ++ chunk) buffer [] ends (c.written ++ sent)))
      → ((w : List Bytes)
          → Runs store (connection (c.received ++ chunk) buffer [] none w) chunks (later store))
      → Runs start c
          (chunk ∷ chunks)
          (then_read (record { written = sent; store = store; raised = ends }) later)
  then_read-Runs start c chunk chunks buffer sent store none later reach runs =
      let (d, more, has) = runs (c.written ++ sent) in
      (
        d,
        Reach-trans P reach more,
        record {
          received = reads_one c.received chunk chunks _ _ has.received;
          queue = has.queue;
          raised = has.raised;
          written = has.written ∙ append_assoc c.written sent (later store).written;
        },
      )
  then_read-Runs start c chunk chunks buffer sent store (some e) later reach runs = (
    _,
    reach,
    record {
      received = reads_one c.received chunk chunks _ _ (stopped (c.received ++ chunk) chunks e);
      queue = refl;
      raised = refl;
      written = refl;
    },
  )

  handle_client-Runs :
      (received buffer : Bytes) (written : List Bytes) (chunks : List Bytes) (store : DataStore)
      → All IsBytes chunks
      → Runs store
          (connection received buffer [] none written)
          chunks
          (handle_client buffer chunks store)
  unfolding handle_client
  handle_client-Runs received buffer written [] store b = (
    _,
    here,
    record {
      received = peer_closed received;
      queue = refl;
      raised = refl;
      written = sym (append-nil written);
    },
  )
  handle_client-Runs received buffer written (chunk ∷ chunks) store b =
      let fed = feed buffer chunk in
      let now = handle_chunk fed store in
      then_read-Runs store (connection received buffer [] none written) chunk chunks fed.buffer
        now.written now.store now.raised (handle_client fed.buffer chunks)
        (Reach-handle_chunk P before after bindings received buffer chunk written store b.0)
        (λ w. handle_client-Runs (received ++ chunk) fed.buffer w chunks now.store b.1)

  -- A connection that was just accepted can run as `handle_client` does on the chunks of bytes that its peer sends. While
  -- the other connections and the bindings stay as they are, the system can come to the store of that session,
  -- with the ADUs of the session written, no frame left and the exception that ended it; and the connection has
  -- then read every chunk, in order, or if it was ended by an exception, those up to one of them.
  pub Reach-handle_client :
      (chunks : List Bytes) (store : DataStore)
      → All IsBytes chunks
      → Runs store accepted chunks (handle_client [] chunks store)
  Reach-handle_client chunks store b = handle_client-Runs [] [] [] chunks store b
