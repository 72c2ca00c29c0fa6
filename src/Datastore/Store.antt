-- ===== src/Datastore/Store.antt =====
-- `DataStore` of modbus_sim/datastore.py: a dictionary from unit ids to devices, in the order of
-- insertion. A device is a shared object in Python: `update` is what the collection holds after its
-- device at this unit id was changed in place.
pub mod Lookup
pub mod Make
use modbus_sim.Prelude.{
  ℕ, Bool, true, false, ◌||◌, Option, none, some, List, [], ◌∷◌, ◌++◌, map, ◌==◌, if◌then◌else◌,
  length,
}
use modbus_sim.Result.{Result, ok, err, value_error, ◌>>=◌}
use modbus_sim.Datastore.Device.{Device}

abbrev pub DataStore : Type 0
DataStore = List Device

abbrev pub empty : DataStore
empty = []

-- `get`
unfoldable pub get : DataStore → ℕ → Option Device
get [] unit_id = none
get (d ∷ store) unit_id = if d.unit_id == unit_id then some d else get store unit_id

-- `unit_id in self._by_unit`
unfoldable pub holds : DataStore → ℕ → Bool
holds [] unit_id = false
holds (d ∷ store) unit_id = d.unit_id == unit_id || holds store unit_id

unfoldable pub add : DataStore → Device → Result DataStore
unfolding holds
add store device = if holds store device.unit_id then err value_error else ok (store ++ device ∷ [])

-- The loop of `__init__`.
add_all : DataStore → List Device → Result DataStore
add_all store [] = ok store
add_all store (device ∷ devices) = do store' ← add store device; add_all store' devices

unfoldable pub make_store : List Device → Result DataStore
unfolding add_all add
make_store devices = add_all empty devices

unfoldable pub units : DataStore → List ℕ
units store = map (λ d. d.unit_id) store

unfoldable pub len : DataStore → ℕ
len store = length store

-- The device at `unit_id` is now `device`, which has the same unit id.
unfoldable pub update : DataStore → ℕ → Device → DataStore
update [] unit_id device = []
update (d ∷ store) unit_id device =
    if d.unit_id == unit_id then device ∷ store else d ∷ update store unit_id device
