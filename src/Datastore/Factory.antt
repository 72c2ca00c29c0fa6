-- ===== src/Datastore/Factory.antt =====
-- `build_device` of modbus_sim/datastore.py.
use Prim.Native.String.{String}
use modbus_sim.Prelude.{ℕ, ◌≡◌, refl, false, none, arith, replicate}
use modbus_sim.Result.{Result, ok, ◌>>=◌}
use modbus_sim.Datastore.Value.{Value, num, flag}
use modbus_sim.Datastore.Block.{make_block}
use modbus_sim.Datastore.Block.Valid.{make_block-IsValid}
use modbus_sim.Datastore.Device.{Device, IsValid, AnyValue, IsRegister}
use modbus_sim.Datastore.Name.{default_name, name_or}

-- From the sizes of the four regions.
unfoldable pub build_device : ℕ → String → ℕ → ℕ → ℕ → ℕ → Result Device
build_device unit_id name coils discrete_inputs holding_registers input_registers = do
  on ← make_block coils none (flag false)
  inputs ← make_block discrete_inputs none (flag false)
  holding ← make_block holding_registers none (num 0)
  input ← make_block input_registers none (num 0)
  ok (record {
    unit_id = unit_id;
    name = name_or name (default_name unit_id);
    coils = on;
    discrete_inputs = inputs;
    holding_registers = holding;
    input_registers = input;
  })

make_block-none :
    (size : ℕ) (fill : Value)
    → make_block size none fill ≡ ok (record { size = size; values = replicate size fill })
unfolding make_block
make_block-none size fill = ground arith

-- It returns a valid device at its unit id.
pub build_device-IsValid :
    (unit_id : ℕ) (name : String) (c i h r : ℕ)
    → (d : Device) × (build_device unit_id name c i h r ≡ ok d) × (d.unit_id ≡ unit_id) × IsValid d
unfolding build_device
build_device-IsValid unit_id name c i h r =
    rw
      (
        make_block-none c (flag false),
        make_block-none i (flag false),
        make_block-none h (num 0),
        make_block-none r (num 0),
      )
      (
        _,
        refl,
        refl,
        record {
          coils =
              make_block-IsValid AnyValue c none (flag false) tt tt
                (make_block-none c (flag false));
          discrete_inputs =
              make_block-IsValid AnyValue i none (flag false) tt tt
                (make_block-none i (flag false));
          holding_registers =
              make_block-IsValid IsRegister h none (num 0) tt (omega arith)
                (make_block-none h (num 0));
          input_registers =
              make_block-IsValid IsRegister r none (num 0) tt (omega arith)
                (make_block-none r (num 0));
        },
      )
