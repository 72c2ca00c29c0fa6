-- ===== src/Tests/Lifecycle.antt =====
-- A server that is started, serves a client while the walk goes on, and is stopped.
use Prim.Native.String.{String}
use modbus_sim.Prelude.{ℕ, [], ◌∷◌, ◌≡◌, refl, List, ◌==◌, if◌then◌else◌}
use modbus_sim.Result.{Result, ok, err, os_error, runtime_error}
use modbus_sim.Server.Lifecycle.{cancelled, raised, make_server, sockets, start, serve_forever}
use modbus_sim.Server.Lifecycle.Stopped.{IsStopped, serve_forever-IsStopped}
use modbus_sim.Tests.Generators.{whole}
use modbus_sim.Tests.Config.{boiler, built, bindings, boiler_checked, boiler_is_built}
use modbus_sim.Tests.Tasks.{after_read, connected_and_read}

-- Any port but 502 can be bound.
abbrev bind : String → ℕ → Result (List String)
bind host port = if port == 502 then err os_error else ok ("127.0.0.1:5020" ∷ [])

listens :
    sockets whole (start whole bind (make_server whole (built ∷ []) "127.0.0.1" 5020 bindings)).1
    ≡ "127.0.0.1:5020" ∷ []
unfolding sockets start make_server
listens = refl

-- A generator that failed is heard of at the end.
failed_generator :
    (serve_forever whole cancelled
      (raised runtime_error)
      after_read
      bind
      (make_server whole (built ∷ []) "127.0.0.1" 5020 bindings)).ending
    ≡ raised runtime_error
unfolding serve_forever start make_server
failed_generator = refl

cannot_bind :
    (serve_forever whole cancelled cancelled after_read bind
      (make_server whole (built ∷ []) "127.0.0.1" 502 bindings)).ending
    ≡ raised os_error
unfolding serve_forever start make_server
cannot_bind = refl

serve_forever-IsStopped_example :
    IsStopped whole (bind "127.0.0.1" 5020) bindings cancelled (raised runtime_error) (
      serve_forever whole cancelled
        (raised runtime_error)
        after_read
        bind
        (make_server whole (built ∷ []) "127.0.0.1" 5020 bindings))
serve_forever-IsStopped_example =
    serve_forever-IsStopped whole bind "127.0.0.1" 5020 cancelled (raised runtime_error) after_read
      (boiler ∷ []) (built ∷ []) bindings boiler_checked boiler_is_built connected_and_read
