-- ===== src/Bench.antt =====
-- The benchmark of scripts/bench.py: `_worker`, `_percentile` and the totals of `run`. The clock is left out: a worker is given the
-- time that each of its turns took, and `rank` is `int(pct / 100 * n)`. `sorted` is a stable sort.
pub mod Sorted
pub mod Shared
pub mod Bag
pub mod Tallied
use modbus_sim.Prelude.{
  ℕ, ◌+◌, ◌-◌, Bool, Option, none, some, List, [], ◌∷◌, ◌++◌, map, min, ◌==◌, if◌then◌else◌, length,
  get_or, Bytes,
}
use modbus_sim.Result.{Result, ok, err, ◌>>=◌}
use modbus_sim.Datastore.Value.{num}
use modbus_sim.Datastore.Block.{write}
use modbus_sim.Datastore.Factory.{build_device}
use modbus_sim.Datastore.Store.{DataStore, make_store, update}
use modbus_sim.Client.{Client, read_holding_registers}

module _ {ℓ} {F : Type ℓ} (le : F → F → Bool) where
  -- In front of the first that is not below.
  insert : F → List F → List F
  insert x [] = x ∷ []
  insert x (y ∷ ys) = let rest = insert x ys in if le x y then x ∷ y ∷ ys else y ∷ rest

  unfoldable pub sorted : List F → List F
  unfolding insert
  sorted [] = []
  sorted (x ∷ xs) = insert x (sorted xs)

  -- `_percentile`
  unfoldable pub percentile : (rank : ℕ → ℕ) (nan : F) → List F → F
  unfolding sorted
  percentile rank nan [] = nan
  percentile rank nan (x ∷ xs) =
      let ordered = sorted (x ∷ xs) in
      get_or ordered (min (length ordered - 1) (rank (length ordered))) nan

  -- `max`, of a list that is not empty.
  unfoldable pub max_of : F → List F → F
  max_of best [] = best
  max_of best (x ∷ xs) = if le x best then max_of best xs else max_of x xs

-- What a worker has counted.
pub record Tally {ℓ} (F : Type ℓ) : Type ℓ where
  pub count : ℕ
  pub latencies : List F
  pub errors : ℕ

module _ {ℓ κ} {F : Type ℓ} {S : Type κ} (peer : S → Bytes → Bytes × S) where
  -- One turn of the loop, before the turns that follow. Any exception is counted.
  abbrev counted {ι} : {A : Type ι} → F → Result A → Tally F → Tally F
  counted ms (ok values) rest = record {
    count = rest.count + 1;
    latencies = ms ∷ rest.latencies;
    errors = rest.errors;
  }
  counted ms (err e) rest = record {
    count = rest.count + 1;
    latencies = rest.latencies;
    errors = rest.errors + 1;
  }

  -- The loop of `_worker`, for the times that its turns took.
  unfoldable pub worker : List F → Client → S → Tally F × (Client × S)
  worker [] client state = (record { count = 0; latencies = []; errors = 0 }, (client, state))
  worker (ms ∷ turns) client state =
      let (read, (client', state')) = read_holding_registers peer client state 0 4 in
      let (rest, ends) = worker turns client' state' in (counted ms read rest, ends)

-- What `run` prints of its workers, and its exit status. The latencies are in one list, which
-- all workers share.
pub record Summary {ℓ} (F : Type ℓ) : Type ℓ where
  pub requests : ℕ
  pub successful : ℕ
  pub errors : ℕ
  pub percentiles : Option (F × F × F × F)
  pub exit : ℕ

abbrev pub total_count {ℓ} : {F : Type ℓ} → List (Tally F) → ℕ
total_count [] = 0
total_count (t ∷ ts) = t.count + total_count ts

abbrev pub total_errors {ℓ} : {F : Type ℓ} → List (Tally F) → ℕ
total_errors [] = 0
total_errors (t ∷ ts) = t.errors + total_errors ts

abbrev pub all_latencies {ℓ} : {F : Type ℓ} → List (Tally F) → List F
all_latencies [] = []
all_latencies (t ∷ ts) = t.latencies ++ all_latencies ts

module _ {ℓ} {F : Type ℓ} (le : F → F → Bool) (nan : F) (rank : ℕ → ℕ → ℕ) where
  abbrev pub percentiles_of : List F → Option (F × F × F × F)
  percentiles_of [] = none
  percentiles_of (x ∷ xs) = some (
    percentile le (rank 50) nan (x ∷ xs),
    percentile le (rank 90) nan (x ∷ xs),
    percentile le (rank 99) nan (x ∷ xs),
    max_of le x xs,
  )

  -- The end of `run`: of the requests sent, the errors, and the latencies in the list that the workers share.
  unfoldable pub report : ℕ → ℕ → List F → Summary F
  report total errors latencies = record {
    requests = total;
    successful = length latencies;
    errors = errors;
    percentiles = percentiles_of latencies;
    exit = if errors == 0 then 0 else 1;
  }

  -- Of workers that ran one after the other.
  unfoldable pub summarize : List (Tally F) → Summary F
  unfolding report
  summarize tallies = report (total_count tallies) (total_errors tallies) (all_latencies tallies)

-- The store of `run`: the device after its first registers were written in place.
unfoldable pub bench_store : Result DataStore
bench_store = do
  device ← build_device 1 "" 0 0 16 16
  store ← make_store (device ∷ [])
  registers ← write device.holding_registers 0 (num 10 ∷ num 20 ∷ num 30 ∷ num 40 ∷ [])
  ok (update store 1 (record device { holding_registers = registers }))
