-- ===== src/Server/Tasks/Rounds/Scheduled.antt =====
-- `_run_generators` of modbus_sim/server.py keeps to its schedule.
use modbus_sim.Prelude.{
  ℕ, ◌≡◌, refl, sym, ap, subst, ◌∙◌, some, List, [], ◌∷◌, ◌++◌, map, ap₂, All-map, append_assoc,
  All, inl, inr,
}
use modbus_sim.Result.{Result, Result-cases}
use modbus_sim.Datastore.Device.{Device}
use modbus_sim.Datastore.Store.{DataStore, get, holds}
use modbus_sim.Datastore.Store as Store
use modbus_sim.Datastore.Store.Lookup.{get-eq-some, get-holds, holds-update}
use modbus_sim.Generators.Floats.{Runtime}
use modbus_sim.Generators.{GeneratorBinding, update}
use modbus_sim.Config.Wired.{IsWired, update-unit_id}
use modbus_sim.Server.Tasks.{Connection, system, here}
use modbus_sim.Server.Tasks.Rounds.{
  Round, then_update, run_round, run_round-found, then_round, run_generators,
}
use modbus_sim.Server.Tasks.Rounds.Schedule.{
  place, due_at, schedule, finished, IsScheduled, IsScheduled-append, Follows-err, update-place, at,
  tick-IsScheduled, failed_tick-IsScheduled,
}

module _ (P : Runtime) (connections : List Connection) where
  -- A round that made the updates that were due, and left every register bound and every unit in the store.
  record IsRound (elapsed : P.Float) (before bindings : List (GeneratorBinding P))
      (store : DataStore) (round : Round P) : Type 0 where
    scheduled :
        IsScheduled P
          (at P connections store (before ++ bindings))
          (at P connections round.store (before ++ round.bindings))
          (due_at P elapsed (map (place P) bindings))
          round.result
    places : map (place P) round.bindings ≡ map (place P) bindings
    units : (u : ℕ) → holds round.store u ≡ holds store u

  then_update-IsRound :
      (elapsed : P.Float) (before bindings : List (GeneratorBinding P)) (b : GeneratorBinding P)
      (store : DataStore) (d : Device) (later : DataStore → Round P)
      → get store b.unit_id ≡ some d
      → ((u : ℕ)
          → holds (Store.update store b.unit_id (update P elapsed b d).1.1) u ≡ holds store u)
      → IsRound elapsed
          (before ++ (update P elapsed b d).1.0 ∷ [])
          bindings
          (Store.update store b.unit_id (update P elapsed b d).1.1)
          (later (Store.update store b.unit_id (update P elapsed b d).1.1))
      → IsRound elapsed before (b ∷ bindings) store (
          then_update P
            (update P elapsed b d).0
            (update P elapsed b d).1.0
            bindings
            (Store.update store b.unit_id (update P elapsed b d).1.1)
            later)
  then_update-IsRound elapsed before bindings b store d later found kept rest =
      let o = update P elapsed b d in
      let store' = Store.update store b.unit_id o.1.1 in
      let same_place : place P o.1.0 ≡ place P b = update-place P elapsed b d in
      elim (Result-cases o.0) [
        | inr (e, failed) ↦ rw failed (record {
          scheduled =
              failed_tick-IsScheduled P connections elapsed before bindings b store d e
                (due_at P elapsed (map (place P) bindings)) found failed;
          places = ap (λ p. p ∷ map (place P) bindings) same_place;
          units = kept;
        })
        | inl (v, went) ↦
            let round = later store' in
            let from = append_assoc before (o.1.0 ∷ []) bindings in
            let to = append_assoc before (o.1.0 ∷ []) round.bindings in
            rw went (record {
              scheduled =
                  IsScheduled-append P ((elapsed, place P b) ∷ [])
                    (due_at P elapsed (map (place P) bindings)) round.result
                    (tick-IsScheduled P connections elapsed before bindings b store d v found went)
                    (subst
                      (λ bs.
                        IsScheduled P (at P connections store' bs)
                          (at P connections round.store (before ++ o.1.0 ∷ round.bindings))
                          (due_at P elapsed (map (place P) bindings)) round.result)
                      from
                      (subst
                        (λ bs.
                          IsScheduled P
                            (at P connections store' ((before ++ o.1.0 ∷ []) ++ bindings))
                            (at P connections round.store bs)
                            (due_at P elapsed (map (place P) bindings)) round.result)
                        to rest.scheduled));
              places = ap₂ (λ p ps. p ∷ ps) same_place rest.places;
              units = λ u. rest.units u ∙ kept u;
            })
      ]

  run_round-IsRound :
      (elapsed : P.Float) (before bindings : List (GeneratorBinding P)) (store : DataStore)
      → All (IsWired P store) bindings
      → IsRound elapsed before bindings store (run_round P elapsed bindings store)
  unfolding run_round
  run_round-IsRound elapsed before [] store wired = record {
    scheduled = record { reach = here; follows = finished };
    places = refl;
    units = λ u. refl;
  }
  run_round-IsRound elapsed before (b ∷ bindings) store wired =
      let (d, found) = get-holds store b.unit_id wired.0 in
      let o = update P elapsed b d in
      let store' = Store.update store b.unit_id o.1.1 in
      let unit : o.1.1.unit_id ≡ b.unit_id =
        (update-unit_id P elapsed b d).1 ∙ (get-eq-some store b.unit_id d found).0 in
      let kept = λ (u : ℕ). holds-update store b.unit_id o.1.1 u unit in
      let wired' = All-map (λ c h. kept c.unit_id ∙ h) bindings wired.1 in
      subst (IsRound elapsed before (b ∷ bindings) store)
        (sym (run_round-found P elapsed b bindings store d found))
        (then_update-IsRound elapsed before bindings b store d (run_round P elapsed bindings) found
          kept (run_round-IsRound elapsed (before ++ o.1.0 ∷ []) bindings store' wired'))

  -- Bindings of the same registers, on a store with the same units.
  places-AreWired :
      (bindings later : List (GeneratorBinding P)) (store store' : DataStore)
      → map (place P) later ≡ map (place P) bindings
      → ((u : ℕ) → holds store' u ≡ holds store u)
      → All (IsWired P store) bindings
      → All (IsWired P store') later
  places-AreWired [] [] store store' same kept wired = tt
  places-AreWired [] (c ∷ later) store store' same kept wired = absurd (cc same)
  places-AreWired (b ∷ bindings) [] store store' same kept wired = absurd (cc same)
  places-AreWired (b ∷ bindings) (c ∷ later) store store' same kept wired =
      let first : place P c ≡ place P b = cc same in
      let rest : map (place P) later ≡ map (place P) bindings = cc same in
      (
        kept c.unit_id ∙ ap (holds store) (ap (λ p. p.0) first) ∙ wired.0,
        places-AreWired bindings later store store' rest kept wired.1,
      )

  then_round-IsScheduled :
      (elapsed : P.Float) (times : List P.Float) (bindings : List (GeneratorBinding P))
      (store : DataStore) (round : Round P)
      (later : List (GeneratorBinding P) → DataStore → Round P)
      → IsRound elapsed [] bindings store round
      → IsScheduled P
          (at P connections round.store round.bindings)
          (at P connections
            (later round.bindings round.store).store
            (later round.bindings round.store).bindings)
          (schedule P times (map (place P) round.bindings))
          (later round.bindings round.store).result
      → IsScheduled P
          (at P connections store bindings)
          (at P connections
            (then_round P round.result round later).store
            (then_round P round.result round later).bindings)
          (schedule P (elapsed ∷ times) (map (place P) bindings))
          (then_round P round.result round later).result
  then_round-IsScheduled elapsed times bindings store round later r rest =
      let this = due_at P elapsed (map (place P) bindings) in
      elim (Result-cases round.result) [
        | inl (u, went) ↦
            let next_round = later round.bindings round.store in
            rw went (
              IsScheduled-append P this (schedule P times (map (place P) bindings))
                next_round.result
                (subst
                  (IsScheduled P (at P connections store bindings)
                    (at P connections round.store round.bindings) this)
                  went r.scheduled)
                (subst
                  (λ ps.
                    IsScheduled P (at P connections round.store round.bindings)
                      (at P connections next_round.store next_round.bindings) (schedule P times ps)
                      next_round.result)
                  r.places rest))
        | inr (e, failed) ↦
            subst
              (λ (q : Result (Unit {0})).
                IsScheduled P (at P connections store bindings)
                  (at P connections (then_round P q round later).store
                    (then_round P q round later).bindings)
                  (schedule P (elapsed ∷ times) (map (place P) bindings))
                  (then_round P q round later).result)
              (sym failed)
              (record {
                reach = r.scheduled.reach;
                follows =
                    Follows-err P (schedule P times (map (place P) bindings)) e r.scheduled.follows
                      failed;
              })
      ]

  -- The generator task, over bindings of devices of the store and at whatever times it wakes up, is an execution of
  -- the system that updates every bound register once at every time, in the order of the times and at each
  -- time in that of the bindings, up to the first update that raises: there it stops with that exception, and
  -- if none raises it makes all of them.
  pub run_generators-IsScheduled :
      (times : List P.Float) (bindings : List (GeneratorBinding P)) (store : DataStore)
      → All (IsWired P store) bindings
      → IsScheduled P
          (system P store connections bindings)
          (system P
            (run_generators P times bindings store).store
            connections
            (run_generators P times bindings store).bindings)
          (schedule P times (map (place P) bindings))
          (run_generators P times bindings store).result
  unfolding run_generators
  run_generators-IsScheduled [] bindings store wired = record { reach = here; follows = finished }
  run_generators-IsScheduled (elapsed ∷ times) bindings store wired =
      let round = run_round P elapsed bindings store in
      let r = run_round-IsRound elapsed [] bindings store wired in
      then_round-IsScheduled elapsed times bindings store round (run_generators P times) r (
        run_generators-IsScheduled times round.bindings round.store
          (places-AreWired bindings round.bindings store round.store r.places r.units wired))
