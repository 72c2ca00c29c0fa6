-- ===== src/Server/Tasks/Rounds/Update.antt =====
-- The slot of a device that an update of a binding of modbus_sim/generators.py writes, and its other slots.
use modbus_sim.Prelude.{
  ℕ, ◌+◌, ◌-◌, ◌≡◌, ◌≢◌, refl, ap, ◌∙◌, true, false, [], ◌∷◌, arith, ltb, leb, ◌&&◌, get_or, length,
  inl, inr,
}
use modbus_sim.Result.{Result, ok, err, ok_injective, Result-cases}
use modbus_sim.Datastore.Value.{Value, num}
use modbus_sim.Datastore.Block.{MemoryBlock, write}
use modbus_sim.Datastore.Block.Valid as Block
use modbus_sim.Datastore.Block.Access.{get_or-write}
use modbus_sim.Datastore.Device.{Device, IsValid, IsRegister}
use modbus_sim.Generators.Floats.{Runtime}
use modbus_sim.Generators.{
  GeneratorBinding, Target, holding, input, target_block, with_block, sample, slot_written,
  write_value, update,
}
use modbus_sim.Generators.Update.{update-IsWritten, target_block-IsValid, target-with_block}
use modbus_sim.Config.Build.{IsBinding}

-- The value in a slot of a register region, 0 past its end.
abbrev pub slot : Target → ℕ → Device → Value
slot target address d = get_or (target_block target d).values address (num 0)

written-slot :
    (b : MemoryBlock) (a a' v : ℕ) (b' : MemoryBlock)
    → a ≢ a'
    → Block.IsValid IsRegister b
    → write b a' (num v ∷ []) ≡ ok b'
    → get_or b'.values a (num 0) ≡ get_or b.values a (num 0)
written-slot b a a' v b' h valid w =
    let outside : (leb a' a && ltb a (a' + length (num v ∷ []))) ≡ false = ground (arith, h) in
    get_or-write IsRegister b a' (num v ∷ []) valid w a (num 0) ∙ rw outside refl

module _ (P : Runtime) where
  -- An update that raised nothing wrote the sample to its slot.
  pub update-slot :
      (elapsed : P.Float) (b : GeneratorBinding P) (d : Device) (v : ℕ)
      → IsBinding P b
      → IsValid d
      → (update P elapsed b d).0 ≡ ok v
      → slot b.target b.address (update P elapsed b d).1.1 ≡ num v
  update-slot elapsed b d v g h same =
      let (wrote, _) = update-IsWritten P elapsed b d g h in
      let (block, written, left) = wrote.written v same in
      let inside : (leb b.address b.address && ltb b.address (b.address + length (num v ∷ [])))
          ≡ true =
        ground arith in
      let first : b.address - b.address ≡ 0 = omega arith in
      rw (left, target-with_block b.target d block)
        (get_or-write IsRegister (target_block b.target d) b.address (num v ∷ [])
            (target_block-IsValid b.target d h) written b.address (num 0)
          ∙ rw (inside, first) refl)

  slot_written-value :
      (b : GeneratorBinding P) (d : Device) (w v : ℕ) (r : Result MemoryBlock)
      → (slot_written P b d w r).0 ≡ ok v
      → w ≡ v
  slot_written-value b d w v (ok block) h = ok_injective h
  slot_written-value b d w v (err e) h = absurd (cc h)

  write_value-value :
      (b : GeneratorBinding P) (d : Device) (r : Result ℕ) (v : ℕ)
      → (write_value P b d r).0 ≡ ok v
      → r ≡ ok v
  write_value-value b d (ok w) v h = ap ok (slot_written-value b d w v _ h)
  write_value-value b d (err e) v h = absurd (cc h)

  -- The value of an update is the sample.
  pub update-value :
      (elapsed : P.Float) (b : GeneratorBinding P) (d : Device) (v : ℕ)
      → (update P elapsed b d).0 ≡ ok v
      → (sample P b.generator elapsed).0 ≡ ok v
  unfolding update
  update-value elapsed b d v h = write_value-value b d _ v h

  -- Another slot of a device.
  abbrev pub Elsewhere : Target → ℕ → Target → ℕ → Type 0
  Elsewhere t a t' a' = ¬ ((t ≡ t') × (a ≡ a'))

  target-slot :
      (t t' : Target) (a a' : ℕ) (d : Device) (v : ℕ) (b : MemoryBlock)
      → Elsewhere t a t' a'
      → IsValid d
      → write (target_block t' d) a' (num v ∷ []) ≡ ok b
      → slot t a (with_block t' d b) ≡ slot t a d
  target-slot holding input a a' d v b h valid w = refl
  target-slot input holding a a' d v b h valid w = refl
  target-slot holding holding a a' d v b h valid w =
      written-slot d.holding_registers a a' v b (λ e. h (refl, e)) valid.holding_registers w
  target-slot input input a a' d v b h valid w =
      written-slot d.input_registers a a' v b (λ e. h (refl, e)) valid.input_registers w

  -- An update leaves every other slot of its device as it was, whether it raised or not.
  pub slot-update :
      (elapsed : P.Float) (b : GeneratorBinding P) (d : Device) (t : Target) (a : ℕ)
      → IsBinding P b
      → IsValid d
      → Elsewhere t a b.target b.address
      → slot t a (update P elapsed b d).1.1 ≡ slot t a d
  slot-update elapsed b d t a g h apart =
      let (wrote, _) = update-IsWritten P elapsed b d g h in
      elim (Result-cases (update P elapsed b d).0) [
        | inl (v, same) ↦
            let (block, written, left) = wrote.written v same in
            rw left (target-slot t b.target a b.address d v block apart h written)
        | inr (e, raised) ↦ ap (slot t a) (wrote.failed e raised)
      ]
