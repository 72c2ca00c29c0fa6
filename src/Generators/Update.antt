-- ===== src/Generators/Update.antt =====
-- A binding's update: one slot of one register region of its device.
use modbus_sim.Prelude.{ℕ, ◌≡◌, refl, sym, ◌∙◌, [], ◌∷◌, IsWord, inl, inr}
use modbus_sim.Result.{Exception, Result, ok, err, ok_injective, Result-cases}
use modbus_sim.Datastore.Value.{num}
use modbus_sim.Datastore.Block.{MemoryBlock, write, set_slot}
use modbus_sim.Datastore.Block.Valid as Block
use modbus_sim.Datastore.Block.Valid.{write-IsValid}
use modbus_sim.Datastore.Block.Access.{set_slot-eq-write}
use modbus_sim.Datastore.Device.{Device, IsValid, IsRegister}
use modbus_sim.Generators.Floats.{Runtime}
use modbus_sim.Generators.{
  Target, holding, input, target_block, with_block, GeneratorBinding, sample, slot_written,
  write_value, update,
}
use modbus_sim.Generators.Valid.{IsGenerator, sample-IsSample}

pub target_block-IsValid :
    (t : Target) (d : Device) → IsValid d → Block.IsValid IsRegister (target_block t d)
target_block-IsValid holding d v = v.holding_registers
target_block-IsValid input d v = v.input_registers

with_block-IsValid :
    (t : Target) (d : Device) (b : MemoryBlock)
    → IsValid d
    → Block.IsValid IsRegister b
    → IsValid (with_block t d b)
with_block-IsValid holding d b v h = record {
  coils = v.coils;
  discrete_inputs = v.discrete_inputs;
  holding_registers = h;
  input_registers = v.input_registers;
}
with_block-IsValid input d b v h = record {
  coils = v.coils;
  discrete_inputs = v.discrete_inputs;
  holding_registers = v.holding_registers;
  input_registers = h;
}

pub target-with_block :
    (t : Target) (d : Device) (b : MemoryBlock) → target_block t (with_block t d b) ≡ b
target-with_block holding d b = refl
target-with_block input d b = refl

pub with_block-unit_id :
    (t : Target) (d : Device) (b : MemoryBlock) → (with_block t d b).unit_id ≡ d.unit_id
with_block-unit_id holding d b = refl
with_block-unit_id input d b = refl

-- What became of a device: the value is in its slot and nothing else changed, or nothing did.
pub record IsWritten (t : Target) (address : ℕ) (d : Device) (o : Result ℕ × Device) : Type 0 where
  pub device : IsValid o.1
  pub unit_id : o.1.unit_id ≡ d.unit_id
  pub written :
      (v : ℕ)
      → o.0 ≡ ok v
      → (b : MemoryBlock) × (write (target_block t d) address (num v ∷ []) ≡ ok b)
        × (o.1 ≡ with_block t d b)
  pub failed : (e : Exception) → o.0 ≡ err e → o.1 ≡ d

module _ (P : Runtime) where
  write_slot-IsWritten :
      (binding : GeneratorBinding P) (d : Device) (v : ℕ)
      → IsWord v
      → IsValid d
      → (r : Result MemoryBlock)
      → set_slot (target_block binding.target d) binding.address (num v) ≡ r
      → IsWritten binding.target binding.address d (slot_written P binding d v r)
  write_slot-IsWritten binding d v h valid (err x) same = record {
    device = valid;
    unit_id = refl;
    written = λ v e. absurd (cc e);
    failed = λ e s. refl;
  }
  write_slot-IsWritten binding d v h valid (ok b) same =
      let block = target_block-IsValid binding.target d valid in
      let wrote : write (target_block binding.target d) binding.address (num v ∷ []) ≡ ok b =
        sym (
          set_slot-eq-write IsRegister (target_block binding.target d) binding.address (num v)
            block)
        ∙ same in
      record {
        device = with_block-IsValid binding.target d b valid (
            write-IsValid IsRegister (target_block binding.target d) binding.address (num v ∷ [])
              block (h, tt) wrote);
        unit_id = with_block-unit_id binding.target d b;
        written = λ w e. rw (sym (ok_injective e)) (b, wrote, refl);
        failed = λ e s. absurd (cc s);
      }

  pub write_value-IsWritten :
      (binding : GeneratorBinding P) (d : Device) (r : Result ℕ)
      → ((v : ℕ) → r ≡ ok v → IsWord v)
      → IsValid d
      → IsWritten binding.target binding.address d (write_value P binding d r)
  write_value-IsWritten binding d (err x) h valid = record {
    device = valid;
    unit_id = refl;
    written = λ v e. absurd (cc e);
    failed = λ e s. refl;
  }
  write_value-IsWritten binding d (ok v) h valid =
      write_slot-IsWritten binding d v (h v refl) valid _ refl

  -- An update keeps what is sound of its device and its generator, and ties the value that it returns to the slot.
  pub update-IsWritten :
      (elapsed : P.Float) (binding : GeneratorBinding P) (d : Device)
      → IsGenerator P binding.generator
      → IsValid d
      → IsWritten binding.target binding.address d
          ((update P elapsed binding d).0, (update P elapsed binding d).1.1)
        × IsGenerator P (update P elapsed binding d).1.0.generator
  unfolding update
  update-IsWritten elapsed binding d g v =
      let s = sample-IsSample P binding.generator elapsed g in
      (
        write_value-IsWritten binding d (sample P binding.generator elapsed).0 s.value v,
        s.generator,
      )

  -- The binding after an update: its generator is the one that the sample left.
  abbrev pub moved : P.Float → GeneratorBinding P → GeneratorBinding P
  moved elapsed binding = record binding { generator = (sample P binding.generator elapsed).1 }

  -- What an update at a time came to: the sample of the generator at that time was written to the slot and returned; or
  -- the sample raised, or the write of it, and the device is as it was.
  pub data IsUpdated (elapsed : P.Float) (binding : GeneratorBinding P) (d : Device)
      : Result ℕ × (GeneratorBinding P × Device) → Type 0 where
    written :
        (v : ℕ) (b : MemoryBlock)
        → (sample P binding.generator elapsed).0 ≡ ok v
        → write (target_block binding.target d) binding.address (num v ∷ []) ≡ ok b
        → IsUpdated elapsed binding d (ok v, (moved elapsed binding, with_block binding.target d b))
    not_sampled :
        (e : Exception)
        → (sample P binding.generator elapsed).0 ≡ err e
        → IsUpdated elapsed binding d (err e, (moved elapsed binding, d))
    not_written :
        (v : ℕ) (e : Exception)
        → (sample P binding.generator elapsed).0 ≡ ok v
        → write (target_block binding.target d) binding.address (num v ∷ []) ≡ err e
        → IsUpdated elapsed binding d (err e, (moved elapsed binding, d))

  write_value-IsUpdated :
      (elapsed : P.Float) (binding : GeneratorBinding P) (d : Device)
      → IsValid d
      → IsUpdated elapsed binding d (
          let o = write_value P binding d (sample P binding.generator elapsed).0 in
          (o.0, (moved elapsed binding, o.1)))
  write_value-IsUpdated elapsed binding d valid =
      elim (Result-cases (sample P binding.generator elapsed).0) [
        | inr (e, same) ↦ rw same (not_sampled e same)
        | inl (v, same) ↦
            let t = target_block binding.target d in
            let as_write =
              set_slot-eq-write IsRegister t binding.address (num v)
                (target_block-IsValid binding.target d valid) in
            elim (Result-cases (write t binding.address (num v ∷ []))) [
              | inl (b, wrote) ↦ rw (same, as_write, wrote) (written v b same wrote)
              | inr (e, failed) ↦ rw (same, as_write, failed) (not_written v e same failed)
            ]
      ]

  update_lem :
      (elapsed : P.Float) (binding : GeneratorBinding P) (d : Device)
      → IsValid d
      → IsUpdated elapsed binding d (update P elapsed binding d)
  unfolding update
  update_lem elapsed binding d valid = write_value-IsUpdated elapsed binding d valid

  -- An update of a binding at a time, on a valid device and with a sound generator: what the generator samples at that
  -- time is written to its slot with all else unchanged, and returned; or the sample raises, or the write of it
  -- does, and the device is as it was. The binding has the generator that the sample leaves, which is sound, and the device stays valid.
  pub update-IsUpdated :
      (elapsed : P.Float) (binding : GeneratorBinding P) (d : Device)
      → IsGenerator P binding.generator
      → IsValid d
      → IsUpdated elapsed binding d (update P elapsed binding d)
        × IsValid (update P elapsed binding d).1.1
        × IsGenerator P (update P elapsed binding d).1.0.generator
  update-IsUpdated elapsed binding d g valid =
      let (wrote, sound) = update-IsWritten elapsed binding d g valid in
      (update_lem elapsed binding d valid, wrote.device, sound)
