-- ===== src/Datastore/Store/Make.antt =====
-- `DataStore.__init__` on devices with different unit ids.
use modbus_sim.Prelude.{
  ℕ, false, ◌≡◌, refl, sym, ap, ◌∙◌, List, [], ◌∷◌, ◌++◌, ◌==◌, arith, append_assoc, append-nil,
  subst,
}
use modbus_sim.Result.{ok}
use modbus_sim.Datastore.Device.{Device}
use modbus_sim.Datastore.Store.{DataStore, holds, add, add_all, make_store}
use modbus_sim.Datastore.Store.Lookup.{HasUniqueUnits}

holds-middle :
    (store : DataStore) (d : Device) (ds : List Device) (u : ℕ)
    → holds (store ++ d ∷ ds) u ≡ false
    → (d.unit_id == u) ≡ false
unfolding holds
holds-middle [] d ds u h = ground arith
holds-middle (e ∷ store) d ds u h = holds-middle store d ds u (ground arith)

absent :
    (store : DataStore) (d : Device) (ds : List Device)
    → HasUniqueUnits (store ++ d ∷ ds)
    → holds store d.unit_id ≡ false
unfolding holds
absent [] d ds h = refl
absent (e ∷ store) d ds h =
    ground (arith, holds-middle store d ds e.unit_id h.0, absent store d ds h.1)

add_all-append :
    (store : DataStore) (devices : List Device)
    → HasUniqueUnits (store ++ devices)
    → add_all store devices ≡ ok (store ++ devices)
unfolding add_all add
add_all-append store [] h = ap ok (sym (append-nil store))
add_all-append store (d ∷ ds) h = rw (absent store d ds h) (
    add_all-append (store ++ d ∷ []) ds
      (subst HasUniqueUnits (sym (append_assoc store (d ∷ []) ds)) h)
    ∙ ap ok (append_assoc store (d ∷ []) ds))

pub make_store_total :
    (devices : List Device) → HasUniqueUnits devices → make_store devices ≡ ok devices
unfolding make_store
make_store_total devices h = add_all-append [] devices h
