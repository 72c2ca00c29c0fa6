-- ===== src/Tests/Tasks.antt =====
-- The tasks of a small server: a client connects and sends a request while the walk goes on.
use modbus_sim.Prelude.{ℕ, ◌≢◌, [], ◌∷◌, ◌≡◌, refl, Bytes, IsBytes, arith, some}
use modbus_sim.Prelude.Integers.{pos}
use modbus_sim.Datastore.Store.{get}
use modbus_sim.Datastore.Store as Store
use modbus_sim.Generators.{update}
use modbus_sim.Server.Tasks.{
  accepted, with_read, System, system, Step, accepts, reads, ticks, Reach, here, next,
}
use modbus_sim.Server.Tasks.Sound.{IsSound}
use modbus_sim.Server.Tasks.Served.{Reach-build_datastore}
use modbus_sim.Tests.Generators.{whole}
use modbus_sim.Tests.Config.{boiler, built, walk_binding, bindings, boiler_checked, boiler_is_built}

abbrev pub start : System whole
start = system whole (built ∷ []) [] bindings

abbrev pub request : Bytes
request = 0 ∷ 1 ∷ 0 ∷ 0 ∷ 0 ∷ 6 ∷ 17 ∷ 3 ∷ 0 ∷ 0 ∷ 0 ∷ 2 ∷ []

abbrev pub after_read : System whole
after_read = system whole (built ∷ []) (with_read accepted request ∷ []) bindings

pub request-IsBytes : IsBytes request
request-IsBytes = omega arith

abbrev pub connected_and_read : Reach whole start after_read
connected_and_read =
    next (next here (accepts start))
      (reads (built ∷ []) [] [] bindings accepted request request-IsBytes refl refl)

pub found : get (built ∷ []) 17 ≡ some built
unfolding get
found = refl

pub start-IsSound : IsSound whole start
start-IsSound =
    Reach-build_datastore whole (boiler ∷ []) (built ∷ []) bindings boiler_checked boiler_is_built
      here

Reach-build_datastore_example : IsSound whole after_read
Reach-build_datastore_example =
    Reach-build_datastore whole (boiler ∷ []) (built ∷ []) bindings boiler_checked boiler_is_built
      connected_and_read

-- The walk goes on.
abbrev pub after_tick : System whole
after_tick =
    system whole (Store.update (built ∷ []) 17 (update whole (pos 1) walk_binding built).1.1) []
      ((update whole (pos 1) walk_binding built).1.0 ∷ [])

abbrev pub tick : Step whole start after_tick
tick = ticks (built ∷ []) [] [] [] walk_binding built (pos 1) found

other_unit : ◌≢◌ {A = ℕ} 5 17
other_unit = omega arith
