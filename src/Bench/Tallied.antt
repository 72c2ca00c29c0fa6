-- ===== src/Bench/Tallied.antt =====
-- The counts of scripts/bench.py, and its run against the server of modbus_sim/server.py.
use modbus_sim.Prelude.{
  ℕ, ◌+◌, ◌≤◌, ◌≡◌, refl, sym, ap, ◌∙◌, Bool, none, some, List, [], ◌∷◌, map, replicate, length,
  length-append, arith, Bytes,
}
use modbus_sim.Result.{Result, ok, err, ok_injective}
use modbus_sim.Datastore.Value.{num, to_int}
use modbus_sim.Datastore.Block.{make_block, write}
use modbus_sim.Datastore.Name.{default_name}
use modbus_sim.Datastore.Factory.{build_device}
use modbus_sim.Datastore.Device.{Device}
use modbus_sim.Datastore.Store.{DataStore, get, make_store, update}
use modbus_sim.Dispatcher.Verdict.{verdict, slots}
use modbus_sim.Server.Connection.Link.{open_link, serve}
use modbus_sim.Client.{Client, make_client, connect, next_tid, read_holding_registers}
use modbus_sim.Client.Served.{IsReady}
use modbus_sim.Cli.{seen_as, words}
use modbus_sim.Cli.Arguments.{holding}
use modbus_sim.Cli.Reads.{IsHosted, make_client-IsReady, call_read-serve, read-IsReady, request_of}
use modbus_sim.Bench.{
  Tally, counted, worker, Summary, total_count, total_errors, all_latencies, report, summarize,
  bench_store,
}

-- Every turn is counted, and it is a success or an error.
pub record IsTallied {ℓ} {F : Type ℓ} (given : List F) (t : Tally F) : Type 0 where
  pub turns : t.count ≡ length given
  pub outcomes : t.count ≡ length t.latencies + t.errors

module _ {ℓ κ} {F : Type ℓ} {S : Type κ} (peer : S → Bytes → Bytes × S) where
  counted-IsTallied :
      {A : Type 0} (ms : F) (turns : List F) (r : Result A) (t : Tally F)
      → IsTallied turns t
      → IsTallied (ms ∷ turns) (counted peer ms r t)
  counted-IsTallied ms turns (ok values) t i = record {
    turns = omega (arith, i.turns);
    outcomes = omega (arith, i.outcomes);
  }
  counted-IsTallied ms turns (err e) t i = record {
    turns = omega (arith, i.turns);
    outcomes = omega (arith, i.outcomes);
  }

  -- Whatever a peer sends back, a worker counts every turn once, as a success with its latency or as an error.
  pub worker-IsTallied :
      (turns : List F) (client : Client) (state : S)
      → IsTallied turns (worker peer turns client state).0
  unfolding worker
  worker-IsTallied [] client state = record { turns = refl; outcomes = refl }
  worker-IsTallied (ms ∷ turns) client state =
      let (read, (client', state')) = read_holding_registers peer client state 0 4 in
      counted-IsTallied ms turns read (worker peer turns client' state').0
        (worker-IsTallied turns client' state')

words_read :
    {S : Type 0} (read : Result (List ℕ) × S) (ns : List ℕ) (state : S)
    → seen_as words read ≡ (ok (words ns), state)
    → read ≡ (ok ns, state)
words_read (ok ms, s) ns state e =
    let same : ms ≡ ns = cc (ap (λ o. o.0) e) in
    let left : s ≡ state = ap (λ o. o.1) e in cc (same, left)
words_read (err x, s) ns state e = absurd (cc (ap (λ o. o.0) e))

-- What the workers of a device are told on every turn.
abbrev pub IsPolled : Device → Type 0
IsPolled d = 4 ≤ d.holding_registers.size

polled-allowed : (d : Device) → IsPolled d → verdict d (request_of holding 0 4) ≡ none
unfolding verdict
polled-allowed d h = ground (arith, h)

abbrev pub bench_device : Device
bench_device = record {
  unit_id = 1;
  name = "device-1";
  coils = record { size = 0; values = [] };
  discrete_inputs = record { size = 0; values = [] };
  holding_registers = record {
    size = 16;
    values = num 10 ∷ num 20 ∷ num 30 ∷ num 40 ∷ replicate 12 (num 0);
  };
  input_registers = record { size = 16; values = replicate 16 (num 0) };
}

pub bench_store_lem : bench_store ≡ ok (bench_device ∷ [])
unfolding bench_store build_device default_name make_block make_store write update
bench_store_lem = refl

bench_device-found : get (bench_device ∷ []) 1 ≡ some bench_device
unfolding get
bench_device-found = refl

bench_store-IsHosted :
    (store : DataStore) → bench_store ≡ ok store → (d : Device) × IsHosted 1 store d × IsPolled d
bench_store-IsHosted store built =
    let same : bench_device ∷ [] ≡ store = ok_injective (sym bench_store_lem ∙ built) in
    rw (← same) (
      bench_device,
      record { unit = omega arith; found = bench_device-found; valid = omega arith },
      omega arith,
    )

module _ {ℓ} {F : Type ℓ} where
  worker-serve :
      (turns : List F) (client : Client) (store : DataStore) (d : Device)
      → IsReady client store d
      → IsPolled d
      → (worker serve turns client (open_link store)).0
        ≡ record { count = length turns; latencies = turns; errors = 0 }
  unfolding worker
  worker-serve [] client store d ready h = refl
  worker-serve (ms ∷ turns) client store d ready h =
      let told = call_read-serve holding client store d 0 4 ready (omega arith) (omega arith) in
      let read =
        words_read (read_holding_registers serve client (open_link store) 0 4)
          (map to_int (slots d.holding_registers 0 4))
          (record client { tid = next_tid client.tid }, open_link (update store client.unit_id d))
          (told ∙ rw (polled-allowed d h) refl) in
      let rest =
        worker-serve turns (record client { tid = next_tid client.tid })
          (update store client.unit_id d) d
          (read-IsReady holding client store d 0 4 ready (omega arith) (omega arith)) h in
      rw (read, rest)
        (ap (λ n. record { count = n; latencies = ms ∷ turns; errors = 0 }) (omega arith))

  -- The workers of `run`, each on a connection of its own to the server of a store.
  abbrev pub tally_all : List (List F) → DataStore → List (Tally F)
  tally_all [] store = []
  tally_all (ts ∷ turns) store =
      (worker serve ts (connect (make_client 1)) (open_link store)).0 ∷ tally_all turns store

  abbrev pub total_turns : List (List F) → ℕ
  total_turns [] = 0
  total_turns (ts ∷ turns) = length ts + total_turns turns

  -- Every turn of every worker was a success, and the exit status says so.
  pub record IsClean (given : List (List F)) (s : Summary F) : Type 0 where
    pub requests : s.requests ≡ total_turns given
    pub successful : s.successful ≡ total_turns given
    pub errors : s.errors ≡ 0
    pub exit : s.exit ≡ 0

  record AreClean (given : List (List F)) (ts : List (Tally F)) : Type 0 where
    requests : total_count ts ≡ total_turns given
    successful : length (all_latencies ts) ≡ total_turns given
    errors : total_errors ts ≡ 0

  tally_all-AreClean :
      (turns : List (List F)) (store : DataStore) (d : Device)
      → IsHosted 1 store d
      → IsPolled d
      → AreClean turns (tally_all turns store)
  tally_all-AreClean [] store d h p = record { requests = refl; successful = refl; errors = refl }
  tally_all-AreClean (ts ∷ turns) store d h p =
      let first =
        worker-serve ts (connect (make_client 1)) store d (make_client-IsReady 1 store d h) p in
      let rest = tally_all-AreClean turns store d h p in
      rw first (record {
        requests = omega (arith, rest.requests);
        successful =
            omega
              (arith, rest.successful, length-append ts (all_latencies (tally_all turns store)));
        errors = omega (arith, rest.errors);
      })

  -- The benchmark on its own server: every worker is answered on every turn, so that the summary counts every turn
  -- as a success, reports no error and exits with 0.
  pub summarize-IsClean :
      (le : F → F → Bool) (nan : F) (rank : ℕ → ℕ → ℕ) (turns : List (List F)) (store : DataStore)
      → bench_store ≡ ok store
      → IsClean turns (summarize le nan rank (tally_all turns store))
  unfolding summarize report
  summarize-IsClean le nan rank turns store built =
      let (d, hosted, polled) = bench_store-IsHosted store built in
      let clean = tally_all-AreClean turns store d hosted polled in
      record {
        requests = clean.requests;
        successful = clean.successful;
        errors = clean.errors;
        exit = ground (arith, clean.errors);
      }
