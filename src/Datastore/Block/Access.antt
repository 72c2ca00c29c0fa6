-- ===== src/Datastore/Block/Access.antt =====
-- A block as a memory: what a read shows after a write, slot by slot.
use modbus_sim.Prelude.{
  ℕ, zero, suc, ◌+◌, ◌<◌, ◌≤◌, ◌≡◌, refl, ap, ◌∙◌, sym, none, List, [], ◌∷◌, ◌++◌, arith, ltb, leb,
  ltb→lt, lt→ltb, ◌&&◌, if◌then◌else◌, length, take, drop, set, get_or, ◌⊎◌, get_or-take,
  get_or-drop, get_or-append, list_ext, Bool-cases, inl, inr, length-append, length-take,
  length-drop,
}
use Prim.Native.Nat.{◌-◌}
use modbus_sim.Result.{ok, err, modbus_error, illegal_data_address}
use modbus_sim.Datastore.Value.{Value}
use modbus_sim.Datastore.Block.{MemoryBlock, read, write, set_slot}
use modbus_sim.Datastore.Block.Valid.{IsValid, spliced, read-eq-ok, write-eq-ok, length-spliced}

-- The test of `_check`: whether the range ends within the block.
abbrev pub InRange : MemoryBlock → ℕ → ℕ → Type 0
InRange b a n = a + n ≤ b.size

-- Reading, writing and setting raise Illegal Data Address with no function code when the range
-- does not end within the block, and succeed otherwise.
pub read_error :
    (b : MemoryBlock) (a n : ℕ)
    → b.size < a + n
    → read b a n ≡ err (modbus_error illegal_data_address none)
unfolding read
read_error b a n h = ground arith

pub write_error :
    (b : MemoryBlock) (a : ℕ) (vs : List Value)
    → b.size < a + length vs
    → write b a vs ≡ err (modbus_error illegal_data_address none)
unfolding write
write_error b a vs h = ground arith

pub read_total :
    (b : MemoryBlock) (a n : ℕ) → InRange b a n → read b a n ≡ ok (take n (drop a b.values))
unfolding read
read_total b a n h = ground arith

pub write_total :
    (b : MemoryBlock) (a : ℕ) (vs : List Value)
    → InRange b a (length vs)
    → write b a vs ≡ ok (record b { values = spliced b.values a vs })
unfolding write
write_total b a vs h = ground arith

-- A read in range gives the slots from its address on.
pub get_or-read :
    (b : MemoryBlock) (a n : ℕ) {vs : List Value}
    → read b a n ≡ ok vs
    → (j : ℕ) (d : Value) → get_or vs j d ≡ (if ltb j n then get_or b.values (a + j) d else d)
get_or-read b a n h j d =
    rw (read-eq-ok b a n h).1 (get_or-take n (drop a b.values) j d ∙ rw get_or-drop)

get_or-spliced :
    (old : List Value) (a : ℕ) (vs : List Value) (j : ℕ) (d : Value)
    → a + length vs ≤ length old
    → get_or (spliced old a vs) j d
      ≡ (if leb a j && ltb j (a + length vs) then get_or vs (j - a) d else get_or old j d)
get_or-spliced old a vs j d h = ground (
  arith,
  get_or-append (take a old ++ vs) (drop (a + length vs) old) j d,
  get_or-append (take a old) vs j d,
  get_or-take a old j d,
  get_or-drop (a + length vs) old (j - (a + length vs)) d,
  length-append (take a old) vs,
  length-take a old,
)

-- The slots of the slice `[a' : a' + n]` of a written block.
get_or-slice :
    (old : List Value) (a : ℕ) (vs : List Value) (a' n j : ℕ) (d : Value)
    → a + length vs ≤ length old
    → j < n
    → get_or (take n (drop a' (spliced old a vs))) j d ≡ (
        if leb a (a' + j) && ltb (a' + j) (a + length vs)
        then get_or vs (a' + j - a) d
        else get_or old (a' + j) d)
get_or-slice old a vs a' n j d h lt =
    get_or-take n (drop a' (spliced old a vs)) j d
    ∙ rw (lt→ltb j n lt) (get_or-drop a' (spliced old a vs) j d)
    ∙ get_or-spliced old a vs (a' + j) d h

length-slice : (xs : List Value) (a n : ℕ) → a + n ≤ length xs → length (take n (drop a xs)) ≡ n
length-slice xs a n h = omega (arith, length-take n (drop a xs), length-drop a xs)

-- A write to a valid block puts its values at their slots and leaves the others.
pub get_or-write :
    (P : Value → Type 0) (b : MemoryBlock) (a : ℕ) (vs : List Value) {b' : MemoryBlock}
    → IsValid P b
    → write b a vs ≡ ok b'
    → (j : ℕ) (d : Value)
    → get_or b'.values j d
      ≡ (if leb a j && ltb j (a + length vs) then get_or vs (j - a) d else get_or b.values j d)
get_or-write P b a vs v h j d =
    let (fits, same) = write-eq-ok b a vs h in
    rw same (get_or-spliced b.values a vs j d (omega arith))

-- In a valid block, a read of the range that was written gives the values written.
pub read-write_self :
    (P : Value → Type 0) (b : MemoryBlock) (a : ℕ) (vs : List Value) {b' : MemoryBlock}
    → IsValid P b
    → write b a vs ≡ ok b'
    → read b' a (length vs) ≡ ok vs
read-write_self P b a vs v h =
    let (fits, same) = write-eq-ok b a vs h in
    let new = spliced b.values a vs in
    let room : a + length vs ≤ length b.values = omega (arith, v.full) in
    let room' : a + length vs ≤ length new = omega (arith, length-spliced b.values a vs room) in
    rw same (
      read_total (record b { values = new }) a (length vs) fits
      ∙ ap ok (
          list_ext (take (length vs) (drop a new)) vs (length-slice new a (length vs) room')
            (λ j d lt.
              let lt' : j < length vs = omega (arith, length-slice new a (length vs) room') in
              let back : a + j - a ≡ j = omega arith in
              get_or-slice b.values a vs a (length vs) j d room lt' ∙ rw back (ground arith))))

-- In a valid block, a read of a range that a write does not meet is unchanged, an error included.
pub read-write_disjoint :
    (P : Value → Type 0) (b : MemoryBlock) (a : ℕ) (vs : List Value) {b' : MemoryBlock} (a' n : ℕ)
    → IsValid P b
    → write b a vs ≡ ok b'
    → (a' + n ≤ a) ⊎ (a + length vs ≤ a')
    → read b' a' n ≡ read b a' n
read-write_disjoint P b a vs a' n v h apart =
    let (fits, same) = write-eq-ok b a vs h in
    let new = spliced b.values a vs in
    let room : a + length vs ≤ length b.values = omega (arith, v.full) in
    let keeps = length-spliced b.values a vs room in
    rw same (elim (Bool-cases (ltb b.size (a' + n))) [
      | inl over ↦
          read_error (record b { values = new }) a' n (ltb→lt b.size (a' + n) over)
          ∙ sym (read_error b a' n (ltb→lt b.size (a' + n) over))
      | inr within ↦
          let at : a' + n ≤ b.size = ground arith in
          read_total (record b { values = new }) a' n at
          ∙ ap ok (
              list_ext (take n (drop a' new)) (take n (drop a' b.values))
                (length-slice new a' n (omega (arith, v.full))
                  ∙ sym (length-slice b.values a' n (omega (arith, v.full))))
                (λ j d lt.
                  let lt' : j < n =
                    omega (arith, v.full, length-slice new a' n (omega (arith, v.full))) in
                  get_or-slice b.values a vs a' n j d room lt'
                  ∙ ground
                      (arith, get_or-take n (drop a' b.values) j d, get_or-drop a' b.values j d)))
          ∙ sym (read_total b a' n at)
    ])

set-eq-spliced :
    (old : List Value) (a : ℕ) (x : Value) → a < length old → set old a x ≡ spliced old a (x ∷ [])
set-eq-spliced [] a x h = absurd (omega arith)
set-eq-spliced (y ∷ ys) zero x h = refl
set-eq-spliced (y ∷ ys) (suc a) x h =
    let e : suc a + 1 ≡ suc (a + 1) = omega arith in
    rw e (ap (◌∷◌ y) (set-eq-spliced ys a x (omega arith)))

-- `set` is the write of one value.
pub set_slot-eq-write :
    (P : Value → Type 0) (b : MemoryBlock) (a : ℕ) (x : Value)
    → IsValid P b
    → set_slot b a x ≡ write b a (x ∷ [])
set_slot-eq-write P b a x v = elim (Bool-cases (ltb b.size (a + 1))) [
  | inl over ↦
      unfold set_slot in rw over (sym (write_error b a (x ∷ []) (ltb→lt b.size (a + 1) over)))
  | inr within ↦
      unfold set_slot in
      rw within (
        ap (λ vs. ok (record b { values = vs }))
          (set-eq-spliced b.values a x (ground (arith, v.full)))
        ∙ sym (write_total b a (x ∷ []) (ground arith)))
]
