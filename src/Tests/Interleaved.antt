-- ===== src/Tests/Interleaved.antt =====
-- The results on the interleaved tasks, at the boiler of the tests: a client's request and the updates of a walk.
use modbus_sim.Prelude.{[], ◌∷◌, ◌++◌, ◌≡◌, refl, none, some, All, map}
use modbus_sim.Prelude.Integers.{pos, negsuc}
use modbus_sim.Result.{ok, err, value_error}
use modbus_sim.Datastore.Store.{DataStore, get, holds}
use modbus_sim.Generators.{update, sample, clamp_u16, bound}
use modbus_sim.Server.Connection.{process_frames, handle_client}
use modbus_sim.Frame.Mbap.{MbapHeader, decode_mbap}
use modbus_sim.Server.Framer.{feed, next_frame}
use modbus_sim.Server.Tasks.{accepted, with_read, System, system, ticks, serves, Reach, here, next}
use modbus_sim.Server.Tasks.Alone.{at, connection, Reach-queue}
use modbus_sim.Server.Tasks.Alone.Client.{Runs, Reach-handle_client}
use modbus_sim.Server.Tasks.Answers.{IsServing}
use modbus_sim.Server.Tasks.Answers.Steps.{Reach-IsServing}
use modbus_sim.Server.Tasks.Events.{replay, events, Reach-replay}
use modbus_sim.Server.Tasks.Rounds.{run_round, run_generators}
use modbus_sim.Server.Tasks.Rounds.Schedule.{IsScheduled, schedule, place}
use modbus_sim.Server.Tasks.Rounds.Scheduled.{run_generators-IsScheduled}
use modbus_sim.Server.Tasks.Rounds.Slots.{Shows, run_round-Shows}
use modbus_sim.Datastore.Store as Store
use modbus_sim.Datastore.Store.{make_store}
use modbus_sim.Datastore.Block.{make_block, set_slot}
use modbus_sim.Datastore.Name.{default_name}
use modbus_sim.Generators.{make_generator}
use modbus_sim.Config.{check_config, build_datastore}
use modbus_sim.Config.Build.{IsBuilt}
use modbus_sim.Config.Wired.{IsWired, build_datastore-AreWired}
use modbus_sim.Config.Load.{RawDevice, RawRegion, load_datastore, load_datastore-IsBuilt}
use modbus_sim.Tests.Generators.{whole}
use modbus_sim.Tests.Config.{boiler, built, walk_binding, bindings, boiler_checked, boiler_is_built}
use modbus_sim.Tests.Tasks.{
  start-IsSound, request, request-IsBytes, after_read, after_tick, tick, start, connected_and_read,
  found,
}
use modbus_sim.Server.Tasks.Served.{Reach-build_datastore}

abbrev request_header : MbapHeader
request_header = record { transaction_id = 1; protocol_id = 0; length = 6; unit_id = 17 }

read_frame : (with_read accepted request).queue ≡ (request_header, request) ∷ []
unfolding feed next_frame decode_mbap
read_frame = refl

-- The walk goes on before the request is served.
abbrev answered_after_tick : (t : System whole) × Reach whole start t
answered_after_tick = (
  _,
  next
      (next connected_and_read (
        ticks (built ∷ []) (with_read accepted request ∷ []) [] [] walk_binding built (pos 1)
          found))
      (serves (Store.update (built ∷ []) 17 (update whole (pos 1) walk_binding built).1.1) [] []
        ((update whole (pos 1) walk_binding built).1.0 ∷ []) (with_read accepted request)
        request_header request [] read_frame),
)

Reach-IsServing_example :
    All
      (IsServing whole (built ∷ []) (events whole answered_after_tick.1))
      answered_after_tick.0.connections
Reach-IsServing_example =
    Reach-IsServing whole (boiler ∷ []) (built ∷ []) bindings boiler_checked boiler_is_built
      answered_after_tick.1

Reach-handle_client_example :
    Runs whole [] [] bindings
      (built ∷ [])
      accepted
      (request ∷ [])
      (handle_client [] (request ∷ []) (built ∷ []))
Reach-handle_client_example =
    Reach-handle_client whole [] [] bindings (request ∷ []) (built ∷ []) (request-IsBytes, tt)

Reach-queue_example : Reach whole after_read (
    at whole [] [] bindings (process_frames (with_read accepted request).queue (built ∷ [])).store (
      connection request
        (with_read accepted request).buffer
        []
        (with_read accepted request).raised
        ([] ++ (process_frames (with_read accepted request).queue (built ∷ [])).written)))
Reach-queue_example = Reach-queue whole [] [] bindings (built ∷ []) (with_read accepted request) (
    Reach-build_datastore whole (boiler ∷ []) (built ∷ []) bindings boiler_checked boiler_is_built
      connected_and_read)

Reach-replay_example :
    get after_tick.store 17 ≡ some (replay whole 17 (events whole (next here tick)) built)
Reach-replay_example = Reach-replay whole (next here tick) 17 built found

a_round : (run_round whole (pos 1) bindings (built ∷ [])).result ≡ ok tt
unfolding run_round get update sample bound clamp_u16 set_slot Store.update
a_round = refl

built-AreWired : All (IsWired whole (built ∷ [])) bindings
built-AreWired = build_datastore-AreWired whole (boiler ∷ []) boiler_is_built

run_generators-IsScheduled_example :
    IsScheduled whole start
      (system whole
        (run_generators whole (pos 1 ∷ pos 2 ∷ []) bindings (built ∷ [])).store
        []
        (run_generators whole (pos 1 ∷ pos 2 ∷ []) bindings (built ∷ [])).bindings)
      (schedule whole (pos 1 ∷ pos 2 ∷ []) (map (place whole) bindings))
      (run_generators whole (pos 1 ∷ pos 2 ∷ []) bindings (built ∷ [])).result
run_generators-IsScheduled_example =
    run_generators-IsScheduled whole [] (pos 1 ∷ pos 2 ∷ []) bindings (built ∷ []) built-AreWired

run_round-Shows_example :
    All (Shows whole (pos 1) (run_round whole (pos 1) bindings (built ∷ [])).store) bindings
run_round-Shows_example =
    run_round-Shows whole (pos 1) bindings (built ∷ []) start-IsSound.store start-IsSound.bindings
      built-AreWired (tt, tt) a_round

abbrev raw_slots : RawRegion whole
raw_slots = record { size = pos 0; init = none; generators = [] }

abbrev raw_boiler : RawDevice whole
raw_boiler = record {
  unit_id = pos 17;
  name = "";
  coils = record { size = pos 2; init = some (pos 1 ∷ []); generators = [] };
  discrete_inputs = raw_slots;
  holding_registers = record {
    size = pos 2;
    init = some (pos 7 ∷ []);
    generators =
        record {
          addr = pos 1;
          fn = "random_walk";
          args = ("start", pos 8) ∷ ("step", pos 5) ∷ ("min", pos 0) ∷ ("max", pos 10) ∷ [];
        }
        ∷ [];
  };
  input_registers = raw_slots;
}

boiler_is_loaded : load_datastore whole (raw_boiler ∷ []) ≡ ok (built ∷ [], bindings)
unfolding load_datastore check_config build_datastore make_generator bound make_block update sample
    clamp_u16 set_slot make_store default_name
boiler_is_loaded = refl

-- A negative initial value is refused.
negative_refused :
    load_datastore whole (
      record raw_boiler {
        coils = record { size = pos 2; init = some (negsuc 0 ∷ []); generators = [] };
      }
      ∷ [])
    ≡ err value_error
unfolding load_datastore
negative_refused = refl

load_datastore-IsBuilt_example :
    IsBuilt whole (built ∷ [], bindings) × All (IsWired whole (built ∷ [])) bindings
load_datastore-IsBuilt_example = load_datastore-IsBuilt whole (raw_boiler ∷ []) boiler_is_loaded
