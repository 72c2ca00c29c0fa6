-- ===== src/Datastore/Store/Lookup.antt =====
-- The collection as a finite map from unit ids.
use modbus_sim.Prelude.{
  ℕ, true, false, ◌||◌, ◌&&◌, ◌≡◌, refl, sym, ap, subst, ◌∙◌, append-nil, append_assoc, Bool-cases,
  Option-cases, inl, inr, none, some, List, [], ◌∷◌, ◌++◌, ◌==◌, if◌then◌else◌, arith, All,
}
use modbus_sim.Result.{ok, err, value_error, bind-eq-ok, ok_injective}
use modbus_sim.Datastore.Device.{Device}
use modbus_sim.Datastore.Store.{DataStore, get, holds, add, add_all, make_store, units, update}

-- The units differ from one another.
abbrev pub HasUniqueUnits : DataStore → Type 0
HasUniqueUnits [] = Unit
HasUniqueUnits (d ∷ store) = (holds store d.unit_id ≡ false) × HasUniqueUnits store

get-append :
    (store : DataStore) (d : Device) (u : ℕ)
    → holds store d.unit_id ≡ false
    → get (store ++ d ∷ []) u ≡ (if d.unit_id == u then some d else get store u)
unfolding get holds
get-append [] d u h = refl
get-append (e ∷ store) d u h = ground (arith, get-append store d u)

holds-append :
    (store : DataStore) (d : Device) (u : ℕ)
    → holds (store ++ d ∷ []) u ≡ (holds store u || d.unit_id == u)
unfolding holds
holds-append [] d u = ground arith
holds-append (e ∷ store) d u = ground (arith, holds-append store d u)

-- A device that is added is found at its unit id, and no other unit is changed.
get-add :
    (store : DataStore) (d : Device) (u : ℕ) {store' : DataStore}
    → add store d ≡ ok store'
    → get store' u ≡ (if d.unit_id == u then some d else get store u)
unfolding add
get-add store d u h = ground (arith, get-append store d u)

HasUniqueUnits-append :
    (store : DataStore) (d : Device)
    → HasUniqueUnits store
    → holds store d.unit_id ≡ false
    → HasUniqueUnits (store ++ d ∷ [])
unfolding holds
HasUniqueUnits-append [] d h n = ground arith
HasUniqueUnits-append (e ∷ store) d h n =
    ground (arith, HasUniqueUnits-append store d h.1, holds-append store d e.unit_id)

pub add-HasUniqueUnits :
    (store : DataStore) (d : Device) {store' : DataStore}
    → HasUniqueUnits store
    → add store d ≡ ok store'
    → HasUniqueUnits store'
unfolding add
add-HasUniqueUnits store d u h = ground (arith, HasUniqueUnits-append store d u)

add-eq-append :
    (store : DataStore) (d : Device) {store' : DataStore}
    → add store d ≡ ok store'
    → store' ≡ store ++ d ∷ []
unfolding add
add-eq-append store d h = ground arith

add_all-HasUniqueUnits :
    (devices : List Device) (store : DataStore) {store' : DataStore}
    → HasUniqueUnits store
    → add_all store devices ≡ ok store'
    → HasUniqueUnits store' × (store' ≡ store ++ devices)
unfolding add_all
add_all-HasUniqueUnits [] store u h =
    let same = ok_injective h in (subst HasUniqueUnits same u, sym same ∙ sym (append-nil store))
add_all-HasUniqueUnits (d ∷ devices) store u h =
    let (next, added, rest) = bind-eq-ok (add store d) _ h in
    let (unique, same) =
      add_all-HasUniqueUnits devices next (add-HasUniqueUnits store d u added) rest in
    let grown : next ≡ store ++ d ∷ [] = add-eq-append store d added in
    (unique, same ∙ ap (λ s. s ++ devices) grown ∙ append_assoc store (d ∷ []) devices)

-- A collection that was made holds the devices given, in order, with different unit ids.
pub make_store-HasUniqueUnits :
    (devices : List Device) {store : DataStore}
    → make_store devices ≡ ok store
    → HasUniqueUnits store × (store ≡ devices)
unfolding make_store
make_store-HasUniqueUnits devices h = add_all-HasUniqueUnits devices [] tt h

-- Adding a device whose unit id is taken raises `ValueError`.
pub add_duplicate :
    (store : DataStore) (d : Device) → holds store d.unit_id ≡ true → add store d ≡ err value_error
unfolding add
add_duplicate store d h = ground arith

pub get-eq-some :
    (store : DataStore) (u : ℕ) (d : Device)
    → get store u ≡ some d
    → (d.unit_id ≡ u) × (holds store u ≡ true)
unfolding get holds
get-eq-some [] u d h = cc
get-eq-some (e ∷ store) u d h = ground (arith, get-eq-some store u d)

get_here :
    (e : Device) (store : DataStore) (u : ℕ) {d : Device}
    → (e.unit_id == u) ≡ true
    → get (e ∷ store) u ≡ some d
    → e ≡ d
unfolding get
get_here e store u here h = ground arith

get_there :
    (e : Device) (store : DataStore) (u : ℕ) {d : Device}
    → (e.unit_id == u) ≡ false
    → get (e ∷ store) u ≡ some d
    → get store u ≡ some d
unfolding get
get_there e store u there h = ground arith

-- What holds of every device of a collection holds of the one found.
pub All-get {κ} :
    (P : Device → Type κ) (store : DataStore) (u : ℕ) {d : Device}
    → All P store
    → get store u ≡ some d
    → P d
unfolding get
All-get P [] u a h = absurd (cc h)
All-get P (e ∷ store) u a h = elim (Bool-cases (e.unit_id == u)) [
  | inl here ↦ subst P (get_here e store u here h) a.0
  | inr there ↦ All-get P store u a.1 (get_there e store u there h)
]

pub All-update {κ} :
    (P : Device → Type κ) (store : DataStore) (u : ℕ) (d : Device)
    → All P store
    → P d
    → All P (update store u d)
unfolding update
All-update P [] u d a p = tt
All-update P (e ∷ store) u d a p = elim (Bool-cases (e.unit_id == u)) [
  | inl here ↦ rw here (p, a.1)
  | inr there ↦ rw there (a.0, All-update P store u d a.1 p)
]

-- A lookup after a change in place: the changed device at its unit, the same at any other.
pub get-update :
    (store : DataStore) (u : ℕ) (d : Device) (v : ℕ)
    → d.unit_id ≡ u
    → get (update store u d) v ≡ (if u == v && holds store u then some d else get store v)
unfolding get update holds
get-update [] u d v h = ground arith
get-update (e ∷ store) u d v h = ground (arith, get-update store u d v h)

pub units-update :
    (store : DataStore) (u : ℕ) (d : Device)
    → d.unit_id ≡ u
    → units (update store u d) ≡ units store
unfolding units update
units-update [] u d h = refl
units-update (e ∷ store) u d h = ground (arith, units-update store u d h)

-- Which units are found depends on the units alone.
pub get-units :
    (store devices : DataStore) (u : ℕ)
    → units store ≡ units devices
    → get store u ≡ none
    → get devices u ≡ none
unfolding units get
get-units [] [] u same h = refl
get-units [] (e ∷ devices) u same h = absurd (cc same)
get-units (d ∷ store) [] u same h = absurd (cc same)
get-units (d ∷ store) (e ∷ devices) u same h =
    let head : d.unit_id ≡ e.unit_id = cc same in
    let tail : units store ≡ units devices = cc same in
    ground (arith, get-units store devices u tail, head)

get-eq-none : (store : DataStore) (u : ℕ) → get store u ≡ none → holds store u ≡ false
unfolding get holds
get-eq-none [] u h = refl
get-eq-none (e ∷ store) u h = ground (arith, get-eq-none store u)

-- A unit that the collection has is found.
pub get-holds :
    (store : DataStore) (u : ℕ) → holds store u ≡ true → (d : Device) × (get store u ≡ some d)
get-holds store u h = elim (Option-cases (get store u)) [
  | inl absent ↦ absurd (ground (arith, h, get-eq-none store u absent))
  | inr (d, found) ↦ (d, found)
]

pub holds-update :
    (store : DataStore) (u : ℕ) (d : Device) (v : ℕ)
    → d.unit_id ≡ u
    → holds (update store u d) v ≡ holds store v
unfolding holds update
holds-update [] u d v h = refl
holds-update (e ∷ store) u d v h = ground (arith, holds-update store u d v h)
