-- ===== src/Dispatcher/Effect.antt =====
-- What requests do to a device: what they read back, and what they leave alone.
use modbus_sim.Prelude.{
  ℕ, ◌≡◌, refl, ap, Bool, List, [], ◌∷◌, map, arith, length, length-map, Bytes,
}
use modbus_sim.Result.{Result, ok, err, bind-eq-ok, ok_injective, modbus_error, ◌>>=◌}
use modbus_sim.Frame.Request.{
  Request, read_coils_request, read_holding_registers_request, write_single_coil_request,
  write_single_register_request, write_multiple_coils_request, write_multiple_registers_request,
  decode_request_pdu,
}
use modbus_sim.Frame.Response.{Response, read_coils_response, read_holding_registers_response}
use modbus_sim.Datastore.Value.{Value, num, flag, to_bool, to_int}
use modbus_sim.Datastore.Block.{MemoryBlock, read, write}
use modbus_sim.Datastore.Block.Valid as Block
use modbus_sim.Datastore.Block.Access.{read-write_self}
use modbus_sim.Datastore.Device.{Device, IsValid, AnyValue, IsRegister}
use modbus_sim.Dispatcher.{handle_request, require_quantity, settle, process_pdu, fallback_fc}

map-to_int-num : (vs : List ℕ) → map to_int (map num vs) ≡ vs
map-to_int-num [] = refl
map-to_int-num (v ∷ vs) = ap (◌∷◌ v) (map-to_int-num vs)

map-to_bool-flag : (vs : List Bool) → map to_bool (map flag vs) ≡ vs
map-to_bool-flag [] = refl
map-to_bool-flag (v ∷ vs) = ap (◌∷◌ v) (map-to_bool-flag vs)

-- A block that `vs` were written to gives them back.
read_back :
    (P : Value → Type 0) {A : Type 0} (b : MemoryBlock) (a : ℕ) (vs : List A) (put : A → Value)
    (b' : MemoryBlock)
    → Block.IsValid P b
    → write b a (map put vs) ≡ ok b'
    → read b' a (length vs) ≡ ok (map put vs)
read_back P b a vs put b' v h = rw length-map at (read-write_self P b a (map put vs) v h)

-- The registers that Write Multiple Registers wrote to a valid device are read back by Read Holding Registers.
pub read_holding-write_multiple_registers :
    (d : Device) (a : ℕ) (vs : List ℕ) {o : Response × Device}
    → IsValid d
    → handle_request d (write_multiple_registers_request a vs) ≡ ok o
    → handle_request o.1 (read_holding_registers_request a (length vs))
      ≡ ok (read_holding_registers_response vs, o.1)
unfolding handle_request
read_holding-write_multiple_registers d a vs v h =
    let (u, quantity, later) = bind-eq-ok (require_quantity (length vs) 123) _ h in
    let (registers, written, e) = bind-eq-ok (write d.holding_registers a (map num vs)) _ later in
    let back =
      read_back IsRegister d.holding_registers a vs num registers v.holding_registers written in
    rw (← ok_injective e, back) (ground (arith, map-to_int-num vs))

-- The coils that Write Multiple Coils wrote to a valid device are read back by Read Coils.
pub read_coils-write_multiple_coils :
    (d : Device) (a : ℕ) (vs : List Bool) {o : Response × Device}
    → IsValid d
    → handle_request d (write_multiple_coils_request a vs) ≡ ok o
    → handle_request o.1 (read_coils_request a (length vs)) ≡ ok (read_coils_response vs, o.1)
unfolding handle_request
read_coils-write_multiple_coils d a vs v h =
    let (u, quantity, later) = bind-eq-ok (require_quantity (length vs) 1968) _ h in
    let (coils, written, e) = bind-eq-ok (write d.coils a (map flag vs)) _ later in
    let back = read_back AnyValue d.coils a vs flag coils v.coils written in
    rw (← ok_injective e, back) (ground (arith, map-to_bool-flag vs))

pub read_holding-write_single_register :
    (d : Device) (a x : ℕ) {o : Response × Device}
    → IsValid d
    → handle_request d (write_single_register_request a x) ≡ ok o
    → handle_request o.1 (read_holding_registers_request a 1)
      ≡ ok (read_holding_registers_response (x ∷ []), o.1)
unfolding handle_request
read_holding-write_single_register d a x v h =
    let (registers, written, e) = bind-eq-ok (write d.holding_registers a (num x ∷ [])) _ h in
    let back =
      read-write_self IsRegister d.holding_registers a (num x ∷ []) v.holding_registers written in
    rw (← ok_injective e, back)

pub read_coils-write_single_coil :
    (d : Device) (a : ℕ) (x : Bool) {o : Response × Device}
    → IsValid d
    → handle_request d (write_single_coil_request a x) ≡ ok o
    → handle_request o.1 (read_coils_request a 1) ≡ ok (read_coils_response (x ∷ []), o.1)
unfolding handle_request
read_coils-write_single_coil d a x v h =
    let (coils, written, e) = bind-eq-ok (write d.coils a (flag x ∷ [])) _ h in
    let back = read-write_self AnyValue d.coils a (flag x ∷ []) v.coils written in
    rw (← ok_injective e, back)

handle_request-unit_id :
    (d : Device) (r : Request) (o : Response × Device)
    → handle_request d r ≡ ok o
    → o.1.unit_id ≡ d.unit_id
unfolding handle_request
handle_request-unit_id d (read_coils_request a c) o h = ground arith
handle_request-unit_id d _ o h = ground arith

settle-unit_id :
    (d : Device) (fallback : ℕ) (r : Result (Response × Device))
    → ((o : Response × Device) → r ≡ ok o → o.1.unit_id ≡ d.unit_id)
    → (settle d fallback r).1.unit_id ≡ d.unit_id
unfolding settle
settle-unit_id d fallback (ok o) h = h o refl
settle-unit_id d fallback (err (modbus_error m fc)) h = refl
settle-unit_id d fallback (err _) h = refl

-- Handling a PDU does not change the unit id of the device.
pub process_pdu-unit_id : (d : Device) (pdu : Bytes) → (process_pdu d pdu).1.unit_id ≡ d.unit_id
unfolding process_pdu
process_pdu-unit_id d pdu =
    settle-unit_id d (fallback_fc pdu) (decode_request_pdu pdu >>= handle_request d) (λ o h.
      let (r, decoded, handled) = bind-eq-ok (decode_request_pdu pdu) (handle_request d) h in
      handle_request-unit_id d r o handled)
