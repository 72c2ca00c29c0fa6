-- ===== src/Server/Tasks/Alone.antt =====
-- The turns of one connection while every other task waits: the sessions of modbus_sim/server.py as executions
-- of its tasks.
pub mod Client
use modbus_sim.Prelude.{
  ◌≡◌, refl, sym, subst, ◌∙◌, Option, none, some, List, [], ◌∷◌, ◌++◌, append-nil, append_assoc,
  Bytes, IsBytes, All,
}
use modbus_sim.Result.{Exception, Result, ok, err}
use modbus_sim.Datastore.Store.{DataStore}
use modbus_sim.Generators.Floats.{Runtime}
use modbus_sim.Generators.{GeneratorBinding}
use modbus_sim.Server.Framer.{Item, feed}
use modbus_sim.Server.Connection.{
  process_frame, Session, then_serve, process_frames, then_raise, handle_chunk, then_read,
  handle_client,
}
use modbus_sim.Server.Connection.Run.{process_frames-IsQuiet}
use modbus_sim.Server.Tasks.Sound.{IsConnection, IsSound, All-member}
use modbus_sim.Server.Tasks.{
  Connection, accepted, with_result, System, system, reads, serves, Reach, here, next,
}

abbrev pub connection : Bytes → Bytes → List Item → Option Exception → List Bytes → Connection
connection received buffer queue raised written = record {
  received = received;
  buffer = buffer;
  queue = queue;
  raised = raised;
  written = written;
}

-- The exception of the frames, or else that of the read.
abbrev pub first_raised : Option Exception → Option Exception → Option Exception
first_raised none raised = raised
first_raised (some e) raised = some e

-- A connection once its queue was processed as `session` tells.
abbrev pub settled : Connection → Session → Connection
settled c session =
    connection c.received c.buffer [] (first_raised session.raised c.raised)
      (c.written ++ session.written)

module _ (P : Runtime) where
  pub Reach-trans : {s t u : System P} → Reach P s t → Reach P t u → Reach P s u
  Reach-trans r here = r
  Reach-trans r (next q step) = next (Reach-trans r q) step

  module _ (before after : List Connection) (bindings : List (GeneratorBinding P)) where
    -- The system in which one connection is `c` and the others wait.
    abbrev pub at : DataStore → Connection → System P
    at store c = system P store (before ++ c ∷ after) bindings

    at-serve :
        (received buffer : Bytes) (items : List Item) (raised : Option Exception)
        (written : List Bytes) (o : Result (Option Bytes) × DataStore) (later : DataStore → Session)
        → ((w : List Bytes) (store : DataStore)
            → Reach P (at store (connection received buffer items raised w)) (
                at
                  (later store).store
                  (settled (connection received buffer items raised w) (later store))))
        → Reach P
            (at o.1 (with_result (connection received buffer items raised written) items o.0))
            (at
              (then_serve o later).store
              (settled (connection received buffer items raised written) (then_serve o later)))
    at-serve received buffer items raised written (ok none, store) later h = h written store
    at-serve received buffer items raised written (ok (some adu), store) later h =
        subst
          (λ w. Reach P (at store (connection received buffer items raised (written ++ adu ∷ []))) (
            at (later store).store
              (connection received buffer [] (first_raised (later store).raised raised) w)))
          (append_assoc written (adu ∷ []) (later store).written) (h (written ++ adu ∷ []) store)
    at-serve received buffer items raised written (err e, store) later h =
        subst
          (λ w.
            Reach P (at store (connection received buffer [] (some e) written))
              (at store (connection received buffer [] (some e) w)))
          (sym (append-nil written)) here

    -- The frames of a queue can all be processed.
    pub Reach-process_frames :
        (received buffer : Bytes) (items : List Item) (raised : Option Exception)
        (written : List Bytes) (store : DataStore)
        → Reach P (at store (connection received buffer items raised written)) (
            at (process_frames items store).store (
              settled
                (connection received buffer items raised written)
                (process_frames items store)))
    unfolding process_frames
    Reach-process_frames received buffer [] raised written store =
        subst
          (λ w.
            Reach P (at store (connection received buffer [] raised written))
              (at store (connection received buffer [] raised w)))
          (sym (append-nil written)) here
    Reach-process_frames received buffer ((header, adu) ∷ items) raised written store =
        Reach-trans
          (next here (
            serves store before after bindings
              (connection received buffer ((header, adu) ∷ items) raised written) header adu items
              refl))
          (at-serve received buffer items raised written (process_frame header adu store)
            (process_frames items) (λ w s. Reach-process_frames received buffer items raised w s))

    first_raised-then_raise :
        (written : List Bytes) (store : DataStore) (ends raised : Option Exception)
        → then_raise (record { written = written; store = store; raised = ends }) raised
          ≡ record { written = written; store = store; raised = first_raised ends raised }
    first_raised-then_raise written store none raised = refl
    first_raised-then_raise written store (some e) raised = refl

    -- A read and the frames that it completes.
    pub Reach-handle_chunk :
        (received buffer chunk : Bytes) (written : List Bytes) (store : DataStore)
        → IsBytes chunk
        → Reach P (at store (connection received buffer [] none written)) (
            at (handle_chunk (feed buffer chunk) store).store (
              connection
                (received ++ chunk)
                (feed buffer chunk).buffer
                []
                (handle_chunk (feed buffer chunk) store).raised
                (written ++ (handle_chunk (feed buffer chunk) store).written)))
    unfolding handle_chunk
    Reach-handle_chunk received buffer chunk written store b =
        let fed = feed buffer chunk in
        let now = process_frames fed.frames store in
        let c = connection received buffer [] none written in
        rw (first_raised-then_raise now.written now.store now.raised fed.raised) (
          Reach-trans (next here (reads store before after bindings c chunk b refl refl)) (
            Reach-process_frames (received ++ chunk) fed.buffer fed.frames fed.raised written
              store))

    -- The frames that wait on a connection of a sound system can all be processed in its own turns, in their order
    -- and with no exception of their own: none is left waiting.
    pub Reach-queue :
        (store : DataStore) (c : Connection)
        → IsSound P (at store c)
        → Reach P (at store c) (
            at (process_frames c.queue store).store (
              connection c.received c.buffer [] c.raised
                (c.written ++ (process_frames c.queue store).written)))
    Reach-queue store c i =
        let ic = All-member IsConnection before after c i.connections in
        let session = process_frames c.queue store in
        let quiet = (process_frames-IsQuiet c.queue store ic.queue ic.bytes i.store).raised in
        subst
          (λ r. Reach P (at store c) (
            at session.store (
              connection c.received c.buffer [] (first_raised r c.raised)
                (c.written ++ session.written))))
          quiet (Reach-process_frames c.received c.buffer c.queue c.raised c.written store)
