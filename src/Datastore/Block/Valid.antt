-- ===== src/Datastore/Block/Valid.antt =====
-- Well-formed blocks: their values against their size, under `__init__` and `write`.
use modbus_sim.Prelude.{
  ℕ, ◌+◌, ◌<◌, ◌≤◌, ◌≡◌, subst, ◌∙◌, Option, List, ◌++◌, arith, ltb, length, take, drop, set,
  replicate, length-append, length-take, length-drop, length-set, length-replicate, Bool-cases, inl,
  inr, All, All-append, All-take, All-drop, All-set, All-replicate,
}
use Prim.Native.Nat.{◌-◌}
use modbus_sim.Result.{ok, ok_injective}
use modbus_sim.Datastore.Value.{Value}
use modbus_sim.Datastore.Block.{MemoryBlock, make_block, read, write, set_slot, initial}

-- The block is full, and every value in it has the property `P` of its region.
pub record IsValid (P : Value → Type 0) (b : MemoryBlock) : Type 0 where
  pub full : length b.values ≡ b.size
  pub values_fit : All P b.values

-- The values of a block that was written to.
abbrev pub spliced : List Value → ℕ → List Value → List Value
spliced old a vs = take a old ++ vs ++ drop (a + length vs) old

pub read-eq-ok :
    (b : MemoryBlock) (a n : ℕ) {vs : List Value}
    → read b a n ≡ ok vs
    → (a + n ≤ b.size) × (vs ≡ take n (drop a b.values))
unfolding read
read-eq-ok b a n h = ground arith

pub write-eq-ok :
    (b : MemoryBlock) (a : ℕ) (vs : List Value) {b' : MemoryBlock}
    → write b a vs ≡ ok b'
    → (a + length vs ≤ b.size) × (b' ≡ record b { values = spliced b.values a vs })
unfolding write
write-eq-ok b a vs h = ground arith

pub set_slot-eq-ok :
    (b : MemoryBlock) (a : ℕ) (x : Value) {b' : MemoryBlock}
    → set_slot b a x ≡ ok b'
    → (a < b.size) × (b' ≡ record b { values = set b.values a x })
unfolding set_slot
set_slot-eq-ok b a x h = ground arith

pub length-spliced :
    (old : List Value) (a : ℕ) (vs : List Value)
    → a + length vs ≤ length old
    → length (spliced old a vs) ≡ length old
length-spliced old a vs h = omega (
  arith,
  length-append (take a old ++ vs) (drop (a + length vs) old),
  length-append (take a old) vs,
  length-take a old,
  length-drop (a + length vs) old,
)

module _ (P : Value → Type 0) where
  -- A block that was made is full, of values that fit if those given and the filler do.
  pub make_block-IsValid :
      (size : ℕ) (values : Option (List Value)) (fill : Value) {b : MemoryBlock}
      → All P (initial values)
      → P fill
      → make_block size values fill ≡ ok b
      → IsValid P b
  unfolding make_block
  make_block-IsValid size values fill {b} hv hf h =
      elim (Bool-cases (ltb size (length (initial values)))) [
        | inl over ↦ absurd (ground arith)
        | inr fits ↦ record {
          full = ground (
            arith,
            length-append (initial values) (replicate (size - length (initial values)) fill),
            length-replicate (size - length (initial values)) fill,
          );
          values_fit =
              subst (λ b. All P (b.values)) (ok_injective (rw fits at h))
                (All-append P _ _ hv (All-replicate P _ fill hf));
        }
      ]

  -- A write of values that fit leaves a valid block valid.
  pub write-IsValid :
      (b : MemoryBlock) (a : ℕ) (vs : List Value) {b' : MemoryBlock}
      → IsValid P b
      → All P vs
      → write b a vs ≡ ok b'
      → IsValid P b'
  write-IsValid b a vs v hv h =
      let (fits, same) = write-eq-ok b a vs h in
      rw same (record {
        full = length-spliced b.values a vs (omega arith) ∙ v.full;
        values_fit =
            All-append P (take a b.values ++ vs) _
              (All-append P (take a b.values) vs (All-take P a b.values v.values_fit) hv)
              (All-drop P (a + length vs) b.values v.values_fit);
      })

  pub set_slot-IsValid :
      (b : MemoryBlock) (a : ℕ) (x : Value) {b' : MemoryBlock}
      → IsValid P b
      → P x
      → set_slot b a x ≡ ok b'
      → IsValid P b'
  set_slot-IsValid b a x v hx h =
      let (fits, same) = set_slot-eq-ok b a x h in
      rw same (record {
        full = length-set b.values a x ∙ v.full;
        values_fit = All-set P b.values a x hx v.values_fit;
      })

  pub read-fits :
      (b : MemoryBlock) (a n : ℕ) {vs : List Value}
      → IsValid P b
      → read b a n ≡ ok vs
      → All P vs × (length vs ≡ n)
  read-fits b a n v h =
      let (fits, same) = read-eq-ok b a n h in
      rw same (
        All-take P n _ (All-drop P a b.values v.values_fit),
        omega (arith, length-take n (drop a b.values), length-drop a b.values, v.full),
      )
