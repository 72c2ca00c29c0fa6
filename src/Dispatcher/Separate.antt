-- ===== src/Dispatcher/Separate.antt =====
-- Requests that do not meet: reads of slots that another request does not touch.
use modbus_sim.Prelude.{
  ℕ, ◌+◌, ◌≤◌, ◌≡◌, ◌≢◌, refl, List, [], ◌∷◌, map, arith, length, inl, inr, ◌⊎◌, length-map,
}
use modbus_sim.Result.{Result, ok, bind-eq-ok, ok_injective, ◌>>=◌}
use modbus_sim.Frame.Request.{
  Request, read_coils_request, read_discrete_inputs_request, read_holding_registers_request,
  read_input_registers_request, write_single_coil_request, write_single_register_request,
  write_multiple_coils_request, write_multiple_registers_request,
}
use modbus_sim.Frame.Response.{Response}
use modbus_sim.Datastore.Value.{Value, num, flag}
use modbus_sim.Datastore.Block.{MemoryBlock, read, write}
use modbus_sim.Datastore.Block.Access.{read-write_disjoint}
use modbus_sim.Datastore.Device.{Device, IsValid, AnyValue, IsRegister}
use modbus_sim.Dispatcher.{handle_request, require_quantity}
use modbus_sim.Dispatcher.Verdict.{address_of, quantity_of}

pub data Region : Type 0 where
  coils discrete_inputs holding_registers input_registers : Region

abbrev pub region : Region → Device → MemoryBlock
region coils d = d.coils
region discrete_inputs d = d.discrete_inputs
region holding_registers d = d.holding_registers
region input_registers d = d.input_registers

-- The region that a request is about.
abbrev pub target : Request → Region
target (read_coils_request a c) = coils
target (read_discrete_inputs_request a c) = discrete_inputs
target (read_holding_registers_request a c) = holding_registers
target (read_input_registers_request a c) = input_registers
target (write_single_coil_request a v) = coils
target (write_single_register_request a v) = holding_registers
target (write_multiple_coils_request a vs) = coils
target (write_multiple_registers_request a vs) = holding_registers

-- The requests name different regions, or ranges of slots that do not meet.
abbrev pub IsSeparate : Request → Request → Type 0
IsSeparate w q =
    (target w ≢ target q)
    ⊎ ((address_of q + quantity_of q ≤ address_of w)
        ⊎ (address_of w + quantity_of w ≤ address_of q))

abbrev Apart : ℕ → ℕ → ℕ → ℕ → Type 0
Apart a n a' n' = (a' + n' ≤ a) ⊎ (a + n ≤ a')

-- Reads of slots that the request does not touch are the same before and after it.
abbrev Keeps : Device → Request → Device → Region → Type 0
Keeps d w d' g =
    (a n : ℕ)
    → (target w ≢ g) ⊎ Apart (address_of w) (quantity_of w) a n
    → read (region g d') a n ≡ read (region g d) a n

changed_coils :
    (d : Device) (w : Request) (vs : List Value) (b : MemoryBlock)
    → IsValid d
    → target w ≡ coils
    → length vs ≡ quantity_of w
    → write d.coils (address_of w) vs ≡ ok b
    → (g : Region) → Keeps d w (record d { coils = b }) g
changed_coils d w vs b v t l h coils a n (inl other) = absurd (other t)
changed_coils d w vs b v t l h coils a n (inr apart) =
    read-write_disjoint AnyValue d.coils (address_of w) vs a n v.coils h (rw l apart)
changed_coils d w vs b v t l h discrete_inputs a n s = refl
changed_coils d w vs b v t l h holding_registers a n s = refl
changed_coils d w vs b v t l h input_registers a n s = refl

changed_registers :
    (d : Device) (w : Request) (vs : List Value) (b : MemoryBlock)
    → IsValid d
    → target w ≡ holding_registers
    → length vs ≡ quantity_of w
    → write d.holding_registers (address_of w) vs ≡ ok b
    → (g : Region) → Keeps d w (record d { holding_registers = b }) g
changed_registers d w vs b v t l h coils a n s = refl
changed_registers d w vs b v t l h discrete_inputs a n s = refl
changed_registers d w vs b v t l h holding_registers a n (inl other) = absurd (other t)
changed_registers d w vs b v t l h holding_registers a n (inr apart) =
    read-write_disjoint IsRegister d.holding_registers (address_of w) vs a n v.holding_registers h
      (rw l apart)
changed_registers d w vs b v t l h input_registers a n s = refl

handle_request-Keeps :
    (d : Device) (w : Request) (o : Response × Device)
    → IsValid d
    → handle_request d w ≡ ok o
    → (g : Region) → Keeps d w o.1 g
unfolding handle_request
handle_request-Keeps d (write_single_coil_request x y) o v h g =
    let (b, written, e) = bind-eq-ok (write d.coils x (flag y ∷ [])) _ h in
    rw (← ok_injective e)
      (changed_coils d (write_single_coil_request x y) _ b v refl refl written g)
handle_request-Keeps d (write_single_register_request x y) o v h g =
    let (b, written, e) = bind-eq-ok (write d.holding_registers x (num y ∷ [])) _ h in
    rw (← ok_injective e)
      (changed_registers d (write_single_register_request x y) _ b v refl refl written g)
handle_request-Keeps d (write_multiple_coils_request x vs) o v h g =
    let (u, quantity, later) = bind-eq-ok (require_quantity (length vs) 1968) _ h in
    let (b, written, e) = bind-eq-ok (write d.coils x (map flag vs)) _ later in
    rw (← ok_injective e) (
      changed_coils d (write_multiple_coils_request x vs) _ b v refl (length-map vs flag) written g)
handle_request-Keeps d (write_multiple_registers_request x vs) o v h g =
    let (u, quantity, later) = bind-eq-ok (require_quantity (length vs) 123) _ h in
    let (b, written, e) = bind-eq-ok (write d.holding_registers x (map num vs)) _ later in
    rw (← ok_injective e) (
      changed_registers d (write_multiple_registers_request x vs) _ b v refl (length-map vs num)
        written g)
handle_request-Keeps d q o v h g = let same : o.1 ≡ d = ground arith in rw same (λ a n s. refl)

-- A request that reads.
abbrev pub IsRead : Request → Type 0
IsRead (read_coils_request a c) = Unit
IsRead (read_discrete_inputs_request a c) = Unit
IsRead (read_holding_registers_request a c) = Unit
IsRead (read_input_registers_request a c) = Unit
IsRead _ = ⊥

-- A read leaves the device as it was.
pub handle_request-IsRead :
    (d : Device) (q : Request) (o : Response × Device)
    → IsRead q
    → handle_request d q ≡ ok o
    → o.1 ≡ d
unfolding handle_request
handle_request-IsRead d (write_single_coil_request a v) o r h = absurd r
handle_request-IsRead d (write_single_register_request a v) o r h = absurd r
handle_request-IsRead d (write_multiple_coils_request a v) o r h = absurd r
handle_request-IsRead d (write_multiple_registers_request a v) o r h = absurd r
handle_request-IsRead d q o r h = ground arith

-- What a client is told: the response, or the exception.
abbrev pub told : Result (Response × Device) → Result Response
told r = r >>= λ o. ok o.0

told_same :
    (d d' : Device) (q : Request)
    → IsRead q
    → read (region (target q) d') (address_of q) (quantity_of q)
      ≡ read (region (target q) d) (address_of q) (quantity_of q)
    → told (handle_request d' q) ≡ told (handle_request d q)
unfolding handle_request
told_same d d' (write_single_coil_request a v) r h = absurd r
told_same d d' (write_single_register_request a v) r h = absurd r
told_same d d' (write_multiple_coils_request a v) r h = absurd r
told_same d d' (write_multiple_registers_request a v) r h = absurd r
told_same d d' q r h = ground arith

-- On a valid device, a read of slots that a request which succeeds does not touch is answered alike before and after the
-- request, a refusal included.
pub handle_request-IsSeparate :
    (d : Device) (w q : Request) (o : Response × Device)
    → IsValid d
    → handle_request d w ≡ ok o
    → IsRead q
    → IsSeparate w q
    → told (handle_request o.1 q) ≡ told (handle_request d q)
handle_request-IsSeparate d w q o v h r s =
    told_same d o.1 q r (handle_request-Keeps d w o v h (target q) (address_of q) (quantity_of q) s)
