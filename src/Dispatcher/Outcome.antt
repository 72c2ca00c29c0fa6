-- ===== src/Dispatcher/Outcome.antt =====
-- The outcome of a request that is not refused: its response on the wire, and its device.
use modbus_sim.Prelude.{
  ℕ, ◌≤◌, ◌≡◌, Bool, none, List, [], ◌∷◌, map, arith, length, drop, length-map, IsWords, All,
  All-take, All-drop, length-take,
}
use modbus_sim.Frame.Request.{
  Request, read_coils_request, read_discrete_inputs_request, read_holding_registers_request,
  read_input_registers_request, write_single_coil_request, write_single_register_request,
  write_multiple_coils_request, write_multiple_registers_request,
}
use modbus_sim.Frame.Request.Valid
use modbus_sim.Frame.Response.{
  Response, read_coils_response, read_discrete_inputs_response, read_holding_registers_response,
  read_input_registers_response,
}
use modbus_sim.Frame.Response.Valid.{IsEncodable, response_bytes}
use modbus_sim.Frame.Bits.Pack.{length-pack_bits}
use modbus_sim.Frame.Registers.RoundTrip.{length-word_bytes}
use modbus_sim.Datastore.Value.{Value, num, flag, to_bool, to_int}
use modbus_sim.Datastore.Block.{MemoryBlock}
use modbus_sim.Datastore.Block.Valid.{write-IsValid}
use modbus_sim.Datastore.Block.Access.{write_total}
use modbus_sim.Datastore.Device.{Device, IsValid, AnyValue, IsRegister}
use modbus_sim.Dispatcher.Verdict.{verdict, outcome, slots}

IsWords-map : (vs : List Value) → All IsRegister vs → IsWords (map to_int vs)
IsWords-map [] h = tt
IsWords-map (v ∷ vs) h = (h.0, IsWords-map vs h.1)

All-any : (vs : List Value) → All AnyValue vs
All-any [] = tt
All-any (v ∷ vs) = (tt, All-any vs)

All-num : (vs : List ℕ) → IsWords vs → All IsRegister (map num vs)
All-num [] h = tt
All-num (v ∷ vs) h = (h.0, All-num vs h.1)

-- The outcome fits the wire, in a PDU of at most 252 bytes.
pub record Fits (r : Response) : Type 0 where
  pub encodable : IsEncodable r
  pub short : length (response_bytes r) ≤ 252
  pub long : 2 ≤ length (response_bytes r)

length-slots : (b : MemoryBlock) (a c : ℕ) → length (slots b a c) ≤ c
length-slots b a c = omega (arith, length-take c (drop a b.values))

bits-Fits :
    (make : List Bool → Response) (b : MemoryBlock) (a c : ℕ)
    → ((bits : List Bool) → length bits ≤ 2000 → Fits (make bits))
    → c ≤ 2000
    → Fits (make (map to_bool (slots b a c)))
bits-Fits make b a c fits h =
    fits (map to_bool (slots b a c))
      (omega (arith, length-map (slots b a c) to_bool, length-slots b a c))

registers-Fits :
    (make : List ℕ → Response) (b : MemoryBlock) (a c : ℕ)
    → ((rs : List ℕ) → length rs ≤ 125 → IsWords rs → Fits (make rs))
    → All IsRegister b.values
    → c ≤ 125
    → Fits (make (map to_int (slots b a c)))
registers-Fits make b a c fits v h =
    fits (map to_int (slots b a c))
      (omega (arith, length-map (slots b a c) to_int, length-slots b a c))
      (IsWords-map (slots b a c) (All-take IsRegister c _ (All-drop IsRegister a b.values v)))

pub outcome-Fits :
    (d : Device) (r : Request)
    → IsValid d
    → Valid.IsEncodable r
    → verdict d r ≡ none
    → Fits (outcome d r).0
unfolding verdict
outcome-Fits d (read_coils_request a c) v h n =
    bits-Fits read_coils_response d.coils a c
      (λ bits le. record {
        encodable = omega arith;
        short = omega (arith, length-pack_bits bits);
        long = omega arith;
      })
      (ground arith)
outcome-Fits d (read_discrete_inputs_request a c) v h n =
    bits-Fits read_discrete_inputs_response d.discrete_inputs a c
      (λ bits le. record {
        encodable = omega arith;
        short = omega (arith, length-pack_bits bits);
        long = omega arith;
      })
      (ground arith)
outcome-Fits d (read_holding_registers_request a c) v h n =
    registers-Fits read_holding_registers_response d.holding_registers a c
      (λ rs le w. record {
        encodable = (omega arith, w);
        short = omega (arith, length-word_bytes rs);
        long = omega arith;
      })
      v.holding_registers.values_fit (ground arith)
outcome-Fits d (read_input_registers_request a c) v h n =
    registers-Fits read_input_registers_response d.input_registers a c
      (λ rs le w. record {
        encodable = (omega arith, w);
        short = omega (arith, length-word_bytes rs);
        long = omega arith;
      })
      v.input_registers.values_fit (ground arith)
outcome-Fits d (write_single_coil_request a x) v h n = omega arith
outcome-Fits d (write_single_register_request a x) v h n = omega arith
outcome-Fits d (write_multiple_coils_request a vs) v h n = ground arith
outcome-Fits d (write_multiple_registers_request a vs) v h n = ground arith

-- A request that is not refused leaves the device valid.
pub outcome-IsValid :
    (d : Device) (r : Request)
    → IsValid d
    → Valid.IsEncodable r
    → verdict d r ≡ none
    → IsValid (outcome d r).1
unfolding verdict
outcome-IsValid d (write_single_coil_request a x) v h n = record {
  discrete_inputs = v.discrete_inputs;
  holding_registers = v.holding_registers;
  input_registers = v.input_registers;
  coils =
      write-IsValid AnyValue d.coils a (flag x ∷ []) v.coils (tt, tt)
        (write_total d.coils a (flag x ∷ []) (ground arith));
}
outcome-IsValid d (write_single_register_request a x) v h n = record {
  coils = v.coils;
  discrete_inputs = v.discrete_inputs;
  input_registers = v.input_registers;
  holding_registers =
      write-IsValid IsRegister d.holding_registers a (num x ∷ []) v.holding_registers (h.1, tt)
        (write_total d.holding_registers a (num x ∷ []) (ground arith));
}
outcome-IsValid d (write_multiple_coils_request a vs) v h n = record {
  discrete_inputs = v.discrete_inputs;
  holding_registers = v.holding_registers;
  input_registers = v.input_registers;
  coils =
      write-IsValid AnyValue d.coils a (map flag vs) v.coils (All-any (map flag vs))
        (write_total d.coils a (map flag vs) (ground (arith, length-map vs flag)));
}
outcome-IsValid d (write_multiple_registers_request a vs) v h n = record {
  coils = v.coils;
  discrete_inputs = v.discrete_inputs;
  input_registers = v.input_registers;
  holding_registers =
      write-IsValid IsRegister d.holding_registers a (map num vs) v.holding_registers
        (All-num vs h.1.1)
        (write_total d.holding_registers a (map num vs) (ground (arith, length-map vs num)));
}
outcome-IsValid d _ v h n = v
