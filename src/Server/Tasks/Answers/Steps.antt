-- ===== src/Server/Tasks/Answers/Steps.antt =====
-- Every step of the tasks of modbus_sim/server.py answers the frames of a connection in their order, on the devices
-- as the server left them.
use modbus_sim.Prelude.{
  ◌≡◌, refl, sym, subst, ◌∙◌, List, [], ◌∷◌, Bytes, All, All-append, All-map, append-nil,
  append_assoc, ◌++◌,
}
use modbus_sim.Result.{ok}
use modbus_sim.Datastore.Store.{DataStore, units}
use modbus_sim.Datastore.Store.Lookup.{units-update, get-eq-some}
use modbus_sim.Generators.Floats.{Runtime}
use modbus_sim.Generators.{GeneratorBinding}
use modbus_sim.Config.{DeviceSpec, check_config, build_datastore}
use modbus_sim.Config.Wired.{update-unit_id}
use modbus_sim.Server.Framer.{Item, feed, next_frame}
use modbus_sim.Server.Tasks.{
  Connection, accepted, System, system, Step, accepts, reads, serves, closes, ticks, Reach, here,
  next,
}
use modbus_sim.Server.Tasks.Sound.{IsSound, Reach-IsSound, All-replace, All-turn, All-remove}
use modbus_sim.Server.Tasks.Served.{Reach-build_datastore}
use modbus_sim.Server.Tasks.Events.{Event, frame, tick, events_of, events, Step-replay-append}
use modbus_sim.Server.Tasks.Answers.{
  Answers, elsewhere, elsewhere-IsServing, unasked, IsServing, with_read-IsServing,
  with_result-IsServing,
}
use modbus_sim.Server.Tasks.Answers.Frame.{IsReplayed, serves-HasOutcome}

-- The server is as its events left it, and every connection is answered in order.
record AreServed (P : Runtime) (devices : DataStore) (past : List (Event P)) (store : DataStore)
    (connections : List Connection) : Type 0 where
  replayed : IsReplayed P devices past store
  serving : All (IsServing P devices past) connections

module _ (P : Runtime) (devices : DataStore) where
  -- What the server does meanwhile changes nothing of what a connection was sent.
  Answers-append :
      (past more : List (Event P)) (items : List Item) (written : List Bytes)
      → Answers P devices past items written
      → Answers P devices (past ++ more) items written
  Answers-append past [] items written a =
      subst (λ h. Answers P devices h items written) (sym (append-nil past)) a
  Answers-append past (e ∷ more) items written a =
      subst (λ h. Answers P devices h items written) (append_assoc past (e ∷ []) more)
        (Answers-append (past ++ e ∷ []) more items written (elsewhere past items written e a))

  accepted-IsServing : (past : List (Event P)) → IsServing P devices past accepted
  unfolding feed next_frame
  accepted-IsServing past = record {
    served = [];
    frames = refl;
    raised = refl;
    buffer = λ _. refl;
    answers = Answers-append [] past [] [] unasked;
  }

  -- A step that serves no frame and updates no binding.
  unchanged-IsServing :
      (past : List (Event P)) (connections : List Connection)
      → All (IsServing P devices past) connections
      → All (IsServing P devices (past ++ [])) connections
  unchanged-IsServing past connections =
      subst (λ h. All (IsServing P devices h) connections) (sym (append-nil past))

  module _ (past : List (Event P)) where
    Step-units :
        {s t : System P}
        → Step P s t
        → IsSound P s
        → IsReplayed P devices past s.store
        → units t.store ≡ units devices
    Step-units (accepts s) i r = r.same_units
    Step-units (reads store before after bindings c chunk h q quiet) i r = r.same_units
    Step-units (serves store before after bindings c header adu items q) i r =
        (serves-HasOutcome P devices past store before after bindings c header adu items q i
          r).same_units
    Step-units (closes store before after bindings c) i r = r.same_units
    Step-units (ticks store connections before after b device elapsed found) i r =
        let (kept, same) = update-unit_id P elapsed b device in
        units-update store b.unit_id _ (same ∙ (get-eq-some store b.unit_id device found).0)
        ∙ r.same_units

    Step-IsReplayed :
        {s t : System P} (step : Step P s t)
        → IsSound P s
        → IsReplayed P devices past s.store
        → IsReplayed P devices (past ++ events_of P step) t.store
    Step-IsReplayed step i r = record {
      same_units = Step-units step i r;
      replays =
          λ u device found. Step-replay-append P step past u device (r.replays u device found);
    }

    Step-IsServing :
        {s t : System P} (step : Step P s t)
        → IsSound P s
        → IsReplayed P devices past s.store
        → All (IsServing P devices past) s.connections
        → All (IsServing P devices (past ++ events_of P step)) t.connections
    Step-IsServing (accepts s) i r a = unchanged-IsServing past _ (
        All-append (IsServing P devices past) s.connections (accepted ∷ []) a
          (accepted-IsServing past, tt))
    Step-IsServing (reads store before after bindings c chunk h q quiet) i r a =
        unchanged-IsServing past _ (
          All-replace (IsServing P devices past) before after c _ a
            (λ ic. with_read-IsServing P devices past c chunk ic q quiet))
    Step-IsServing (serves store before after bindings c header adu items q) i r a =
        let o =
          serves-HasOutcome P devices past store before after bindings c header adu items q i r in
        All-turn (IsServing P devices past) _ before after c _
          (elsewhere-IsServing P devices past (frame header adu)) a
          (with_result-IsServing P devices past c header adu items _ o.sent o.result q o.outcome)
    Step-IsServing (closes store before after bindings c) i r a =
        unchanged-IsServing past _ (All-remove (IsServing P devices past) before after c a)
    Step-IsServing (ticks store connections before after b device elapsed found) i r a =
        All-map (elsewhere-IsServing P devices past (tick elapsed b)) connections a

  Reach-AreServed :
      {s t : System P} (r : Reach P s t)
      → IsSound P s
      → AreServed P devices [] s.store s.connections
      → AreServed P devices (events P r) t.store t.connections
  Reach-AreServed here i a = a
  Reach-AreServed (next r step) i a =
      let now = Reach-AreServed r i a in
      let sound = Reach-IsSound P r i in
      record {
        replayed = Step-IsReplayed (events P r) step sound now.replayed;
        serving = Step-IsServing (events P r) step sound now.replayed now.serving;
      }

-- In every interleaving of the tasks of a server that starts from a validated configuration, each connection was sent, in
-- the order of the frames that it has read, one answer for each frame served so far that is for a device of the
-- server, and nothing for another. The answer is under the frame's own ids and is what the dispatcher returns on the
-- device as the requests and the updates that were done for it before the frame, in the order of the whole
-- server, left it. The frames that were not served yet wait in order.
pub Reach-IsServing :
    (P : Runtime) (specs : List (DeviceSpec P)) (store : DataStore)
    (bindings : List (GeneratorBinding P)) {t : System P}
    → check_config P specs ≡ ok tt
    → build_datastore P specs ≡ ok (store, bindings)
    → (reach : Reach P (system P store [] bindings) t)
    → All (IsServing P store (events P reach)) t.connections
Reach-IsServing P specs store bindings checked built reach =
    let sound = Reach-build_datastore P specs store bindings checked built here in
    (Reach-AreServed P store reach sound (record {
      replayed = record { same_units = refl; replays = λ u device found. found };
      serving = tt;
    })).serving
