-- ===== src/Config/Valid.antt =====
-- The blocks that `_build_block` of modbus_sim/config.py makes of validated specifications.
use modbus_sim.Prelude.{
  ℕ, Bool, true, false, ◌≡◌, refl, Option, some, none, List, [], ◌∷◌, map, arith, All,
}
use modbus_sim.Result.{ok, Returns, ok-Returns, bind-Returns, then-eq-ok}
use modbus_sim.Datastore.Value.{Value, num, flag}
use modbus_sim.Datastore.Block.{initial}
use modbus_sim.Datastore.Block.Valid as Block
use modbus_sim.Datastore.Block.Valid.{make_block-IsValid}
use modbus_sim.Datastore.Device.{IsValid, AnyValue, IsRegister}
use modbus_sim.Generators.Floats.{Runtime}
use modbus_sim.Config.{
  require, every, each_init, is_word, values_of, RegionSpec, DeviceSpec, check_device, check_all,
  build_bits, build_words, build_blocks,
}

pub require-eq-ok : (b : Bool) → require b ≡ ok tt → b ≡ true
require-eq-ok true h = refl
require-eq-ok false h = absurd (cc h)

every-All : (vs : List ℕ) → every is_word vs ≡ true → All IsRegister (map num vs)
every-All [] h = tt
every-All (v ∷ vs) h = (ground arith, every-All vs (ground arith))

All-init :
    (init : Option (List ℕ))
    → each_init is_word init ≡ true
    → All IsRegister (initial (values_of num init))
All-init none h = tt
All-init (some vs) h = every-All vs h

All-any : (vs : List Value) → All AnyValue vs
All-any [] = tt
All-any (v ∷ vs) = (tt, All-any vs)

module _ (P : Runtime) where
  -- The initial values of the register regions are 16-bit numbers.
  pub record HasWords (spec : DeviceSpec P) : Type 0 where
    pub holding_registers : each_init is_word spec.holding_registers.init ≡ true
    pub input_registers : each_init is_word spec.input_registers.init ≡ true

  check_device-HasWords : (spec : DeviceSpec P) → check_device P spec ≡ ok tt → HasWords spec
  unfolding check_device
  check_device-HasWords spec h =
      let (rest, input_ok) =
        then-eq-ok _ (require (each_init is_word spec.input_registers.init)) h in
      let (_, holding_ok) =
        then-eq-ok _ (require (each_init is_word spec.holding_registers.init)) rest in
      record {
        holding_registers = require-eq-ok _ holding_ok;
        input_registers = require-eq-ok _ input_ok;
      }

  pub check_all-HasWords :
      (specs : List (DeviceSpec P)) → check_all (check_device P) specs ≡ ok tt → All HasWords specs
  check_all-HasWords [] h = tt
  check_all-HasWords (spec ∷ specs) h =
      let (first, rest) = then-eq-ok (check_device P spec) (check_all (check_device P) specs) h in
      (check_device-HasWords spec first, check_all-HasWords specs rest)

  build_bits-IsValid :
      (region : RegionSpec P) → Returns (Block.IsValid AnyValue) (build_bits P region)
  unfolding build_bits
  build_bits-IsValid region b h =
      make_block-IsValid AnyValue region.size _ (flag false) (All-any _) tt h

  build_words-IsValid :
      (region : RegionSpec P)
      → each_init is_word region.init ≡ true
      → Returns (Block.IsValid IsRegister) (build_words P region)
  unfolding build_words
  build_words-IsValid region w b h =
      make_block-IsValid IsRegister region.size _ (num 0) (All-init region.init w) (omega arith) h

  pub build_blocks-IsValid :
      (spec : DeviceSpec P) → HasWords spec → Returns IsValid (build_blocks P spec)
  unfolding build_blocks
  build_blocks-IsValid spec w =
      bind-Returns (Block.IsValid AnyValue) IsValid (build_bits P spec.coils)
        (build_bits-IsValid spec.coils)
        (λ c hc.
          bind-Returns (Block.IsValid AnyValue) IsValid (build_bits P spec.discrete_inputs)
            (build_bits-IsValid spec.discrete_inputs)
            (λ i hi.
              bind-Returns (Block.IsValid IsRegister) IsValid (build_words P spec.holding_registers)
                (build_words-IsValid spec.holding_registers w.holding_registers)
                (λ h hh.
                  bind-Returns (Block.IsValid IsRegister) IsValid
                    (build_words P spec.input_registers)
                    (build_words-IsValid spec.input_registers w.input_registers)
                    (λ r hr. ok-Returns IsValid _ (record {
                      coils = hc;
                      discrete_inputs = hi;
                      holding_registers = hh;
                      input_registers = hr;
                    })))))
