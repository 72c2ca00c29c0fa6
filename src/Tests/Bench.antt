-- ===== src/Tests/Bench.antt =====
-- The benchmark and the log at small inputs.
use modbus_sim.Prelude.{ℕ, ◌*◌, ◌≤◌, leb, [], ◌∷◌, ◌≡◌, refl, some, List, arith, length, Bytes}
use modbus_sim.Result.{ok}
use modbus_sim.Frame.Mbap.{MbapHeader}
use modbus_sim.Frame.Request.{read_holding_registers_request}
use modbus_sim.Frame.Response.Valid.{response_bytes}
use modbus_sim.Datastore.Device.{IsValid}
use modbus_sim.Datastore.Store.{get}
use modbus_sim.Dispatcher.Verdict.{verdict}
use modbus_sim.Client.Answer.{response_to}
use modbus_sim.Server.Framer.{feed_loop, feed}
use modbus_sim.Server.Framer.Loop.{feed_loop-feed}
use modbus_sim.Server.Log.{Peer, pair, process_frame_log}
use modbus_sim.Server.Log.Logged.{line_for, fields_for, process_frame_log-request}
use modbus_sim.Bench.{sorted, percentile, Tally, report, summarize}
use modbus_sim.Bench.Bag.{IsLinear, IsFilled, done, turn, report-IsFilled}
use native.Mathlib.Nat.{ℕ_set}
use modbus_sim.Bench.Sorted.{IsOrder, IsPlaced, IsBelow, place, percentile-IsPlaced}
use modbus_sim.Bench.Tallied.{IsClean, tally_all, bench_device, bench_store_lem, summarize-IsClean}
use modbus_sim.Tests.Data.{sensor, plant}

leb-IsOrder : IsOrder leb
leb-IsOrder = record { total = λ a b h. ground arith; trans = λ a b c h k. ground arith }

abbrev times : List ℕ
times = 30 ∷ 10 ∷ 20 ∷ []

times_in_order : sorted leb times ≡ 10 ∷ 20 ∷ 30 ∷ []
unfolding sorted
times_in_order = refl

abbrev middle : ℕ → ℕ
middle n = 1

abbrev last : ℕ → ℕ
last n = 9

percentile-IsPlaced_example :
    IsPlaced leb times (place leb middle times) (percentile leb middle 0 times)
    × IsBelow leb (percentile leb middle 0 times) (percentile leb last 0 times)
percentile-IsPlaced_example =
    percentile-IsPlaced leb leb-IsOrder middle last 0 times (omega arith) (omega arith)

summarize-IsClean_example :
    IsClean ((3 ∷ 4 ∷ []) ∷ (5 ∷ []) ∷ []) (
      summarize leb 0
        (λ pct. middle)
        (tally_all ((3 ∷ 4 ∷ []) ∷ (5 ∷ []) ∷ []) (bench_device ∷ [])))
summarize-IsClean_example =
    summarize-IsClean leb 0 (λ pct. middle) ((3 ∷ 4 ∷ []) ∷ (5 ∷ []) ∷ []) (bench_device ∷ [])
      bench_store_lem

leb-IsLinear : IsLinear leb
leb-IsLinear = record { set = ℕ_set; order = leb-IsOrder; antisym = λ a b h k. ground arith }

abbrev two_tallies : List (Tally ℕ)
two_tallies =
    record { count = 3; latencies = 30 ∷ 10 ∷ []; errors = 1 }
    ∷ record { count = 1; latencies = 20 ∷ []; errors = 0 }
    ∷ []

-- The second worker's turn ends between those of the first.
interleaved : IsFilled {F = ℕ} ((30 ∷ 10 ∷ []) ∷ (20 ∷ []) ∷ []) (30 ∷ 20 ∷ 10 ∷ [])
interleaved = turn [] ((20 ∷ []) ∷ []) 30 (10 ∷ []) (20 ∷ 10 ∷ []) (
    turn ((10 ∷ []) ∷ []) [] 20 [] (10 ∷ [])
      (turn [] ([] ∷ []) 10 [] [] (done ([] ∷ [] ∷ []) (refl, (refl, tt)))))

report-IsFilled_example :
    report leb 0 (λ pct. middle) 4 1 (30 ∷ 20 ∷ 10 ∷ [])
    ≡ summarize leb 0 (λ pct. middle) two_tallies
report-IsFilled_example =
    report-IsFilled leb 0 (λ pct. middle) two_tallies (30 ∷ 20 ∷ 10 ∷ []) leb-IsLinear interleaved

feed_loop-feed_example :
    (feed_loop 100 (0 ∷ 1 ∷ 0 ∷ 0 ∷ 0 ∷ 2 ∷ 1 ∷ 7 ∷ 0 ∷ [])
      ≡ feed (0 ∷ 1 ∷ []) (0 ∷ 0 ∷ 0 ∷ 2 ∷ 1 ∷ 7 ∷ 0 ∷ []))
    × (8 * length (feed (0 ∷ 1 ∷ []) (0 ∷ 0 ∷ 0 ∷ 2 ∷ 1 ∷ 7 ∷ 0 ∷ [])).frames ≤ 9)
feed_loop-feed_example =
    feed_loop-feed 100 (0 ∷ 1 ∷ []) (0 ∷ 0 ∷ 0 ∷ 2 ∷ 1 ∷ 7 ∷ 0 ∷ []) (omega arith)

abbrev caller : Peer
caller = pair "10.0.0.1" "4000"

abbrev header : MbapHeader
header = record { transaction_id = 1; protocol_id = 0; length = 6; unit_id = 1 }

abbrev adu : Bytes
adu = 0 ∷ 1 ∷ 0 ∷ 0 ∷ 0 ∷ 6 ∷ 1 ∷ 3 ∷ 0 ∷ 0 ∷ 0 ∷ 9 ∷ []

sensor_found : get plant 1 ≡ some sensor
unfolding get
sensor_found = refl

sensor-IsValid : IsValid sensor
sensor-IsValid = omega arith

process_frame_log-request_example :
    process_frame_log caller header adu plant
    ≡ ok (
        line_for
          (verdict sensor (read_holding_registers_request 0 9))
          (fields_for caller header (read_holding_registers_request 0 9))
          (length (response_bytes (response_to sensor (read_holding_registers_request 0 9)))))
process_frame_log-request_example =
    process_frame_log-request caller header adu plant sensor (read_holding_registers_request 0 9)
      refl sensor_found sensor-IsValid (omega arith) refl
