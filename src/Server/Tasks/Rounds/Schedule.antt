-- ===== src/Server/Tasks/Rounds/Schedule.antt =====
-- The updates that `_run_generators` of modbus_sim/server.py makes: which registers, at which times and in which order, and
-- where it stops.
use modbus_sim.Prelude.{
  ℕ, ◌≡◌, refl, sym, subst, some, List, [], ◌∷◌, ◌++◌, map, append-nil, append_assoc,
}
use modbus_sim.Result.{Exception, Result, ok, err}
use modbus_sim.Datastore.Device.{Device}
use modbus_sim.Datastore.Store.{DataStore, get, holds}
use modbus_sim.Datastore.Store as Store
use modbus_sim.Generators.Floats.{Runtime}
use modbus_sim.Generators.{GeneratorBinding, Target, update}
use modbus_sim.Server.Tasks.{Connection, System, system, Step, ticks, Reach, here, next}

module _ (P : Runtime) where
  -- The register of a binding: the unit, the region and the address.
  abbrev pub Place : Type 0
  Place = ℕ × Target × ℕ

  abbrev pub place : GeneratorBinding P → Place
  place b = (b.unit_id, b.target, b.address)

  -- An update that is due at a time.
  abbrev pub Due : Type 0
  Due = P.Float × Place

  abbrev pub due_at : P.Float → List Place → List Due
  due_at elapsed = map (λ p. (elapsed, p))

  -- Every register in turn, at every time.
  abbrev pub schedule : List P.Float → List Place → List Due
  schedule [] places = []
  schedule (elapsed ∷ times) places = due_at elapsed places ++ schedule times places

  -- The updates that a step of the tasks makes, with what each of them came to.
  abbrev pub log_of : {s t : System P} → Step P s t → List (Due × Result ℕ)
  log_of (ticks store connections before after b device elapsed found) =
      ((elapsed, place b), (update P elapsed b device).0) ∷ []
  log_of _ = []

  abbrev pub log : {s t : System P} → Reach P s t → List (Due × Result ℕ)
  log here = []
  log (next r step) = log r ++ log_of step

  -- A log that follows a list of updates: all of them in their order, if none raises, else those up to the
  -- first that raises, with its exception.
  pub data Follows : List Due → List (Due × Result ℕ) → Result (Unit {0}) → Type 0 where
    finished : Follows [] [] (ok tt)
    went_on :
        (d : Due) (v : ℕ) (dues : List Due) (more : List (Due × Result ℕ)) (r : Result (Unit {0}))
        → Follows dues more r
        → Follows (d ∷ dues) ((d, ok v) ∷ more) r
    stopped :
        (d : Due) (e : Exception) (dues : List Due) → Follows (d ∷ dues) ((d, err e) ∷ []) (err e)

  -- An execution of the system whose updates follow a list.
  pub record IsScheduled (s t : System P) (dues : List Due) (r : Result (Unit {0})) : Type 0 where
    pub reach : Reach P s t
    pub follows : Follows dues (log reach) r

  Follows-append :
      {xs ys : List Due} {l m : List (Due × Result ℕ)} {q r : Result (Unit {0})}
      → Follows xs l q
      → q ≡ ok tt
      → Follows ys m r
      → Follows (xs ++ ys) (l ++ m) r
  Follows-append finished h f = f
  Follows-append (went_on d v dues more q g) h f = went_on d v _ _ _ (Follows-append g h f)
  Follows-append (stopped d e dues) h f = absurd (cc h)

  pub Follows-err :
      {xs : List Due} (ys : List Due) {l : List (Due × Result ℕ)} {r : Result (Unit {0})}
      (e : Exception)
      → Follows xs l r
      → r ≡ err e
      → Follows (xs ++ ys) l r
  Follows-err ys e finished h = absurd (cc h)
  Follows-err ys e (went_on d v dues more q g) h = went_on d v _ _ _ (Follows-err ys e g h)
  Follows-err ys e (stopped d x dues) h = stopped d x _

  log-append :
      {s t u : System P} (r : Reach P s t) (q : Reach P t u)
      → (both : Reach P s u) × (log both ≡ log r ++ log q)
  log-append r here = (r, sym (append-nil (log r)))
  log-append r (next q step) =
      let (both, same) = log-append r q in
      (next both step, rw same (append_assoc (log r) (log q) (log_of step)))

  pub IsScheduled-append :
      {s t u : System P} (xs ys : List Due) (r : Result (Unit {0}))
      → IsScheduled s t xs (ok tt)
      → IsScheduled t u ys r
      → IsScheduled s u (xs ++ ys) r
  IsScheduled-append xs ys r a b =
      let (both, same) = log-append a.reach b.reach in
      record { reach = both; follows = rw same (Follows-append a.follows refl b.follows) }

  pub update-place :
      (elapsed : P.Float) (b : GeneratorBinding P) (d : Device)
      → place (update P elapsed b d).1.0 ≡ place b
  unfolding update
  update-place elapsed b d = refl

  module _ (connections : List Connection) where
    abbrev pub at : DataStore → List (GeneratorBinding P) → System P
    at store bindings = system P store connections bindings

    pub tick-IsScheduled :
        (elapsed : P.Float) (before after : List (GeneratorBinding P)) (b : GeneratorBinding P)
        (store : DataStore) (d : Device) (v : ℕ)
        → get store b.unit_id ≡ some d
        → (update P elapsed b d).0 ≡ ok v
        → IsScheduled
            (at store (before ++ b ∷ after))
            (at
              (Store.update store b.unit_id (update P elapsed b d).1.1)
              (before ++ (update P elapsed b d).1.0 ∷ after))
            ((elapsed, place b) ∷ [])
            (ok tt)
    tick-IsScheduled elapsed before after b store d v found same = record {
      reach = next here (ticks store connections before after b d elapsed found);
      follows =
          subst (λ o. Follows ((elapsed, place b) ∷ []) (((elapsed, place b), o) ∷ []) (ok tt))
            (sym same) (went_on _ v [] [] (ok tt) finished);
    }

    pub failed_tick-IsScheduled :
        (elapsed : P.Float) (before after : List (GeneratorBinding P)) (b : GeneratorBinding P)
        (store : DataStore) (d : Device) (e : Exception) (dues : List Due)
        → get store b.unit_id ≡ some d
        → (update P elapsed b d).0 ≡ err e
        → IsScheduled
            (at store (before ++ b ∷ after))
            (at
              (Store.update store b.unit_id (update P elapsed b d).1.1)
              (before ++ (update P elapsed b d).1.0 ∷ after))
            ((elapsed, place b) ∷ dues)
            (err e)
    failed_tick-IsScheduled elapsed before after b store d e dues found same = record {
      reach = next here (ticks store connections before after b d elapsed found);
      follows =
          subst (λ o. Follows ((elapsed, place b) ∷ dues) (((elapsed, place b), o) ∷ []) (err e))
            (sym same) (stopped _ e dues);
    }
