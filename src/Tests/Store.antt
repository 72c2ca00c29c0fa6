-- ===== src/Tests/Store.antt =====
-- Blocks, devices and the dispatcher, and the theorems at a small device.
use modbus_sim.Prelude.{true, [], ◌∷◌, ◌≡◌, refl, none, some, Bytes, arith, inr}
use modbus_sim.Result.{ok, err, modbus_error, illegal_data_address, value_error}
use modbus_sim.Frame.Request.{
  read_coils_request, read_holding_registers_request, write_multiple_coils_request,
  write_multiple_registers_request, decode_request_pdu,
}
use modbus_sim.Frame.Response.{
  read_coils_response, read_holding_registers_response, write_multiple_registers_response,
  write_multiple_coils_response, encode_response_pdu, clear_mask, set_mask,
}
use modbus_sim.Frame.Registers.{pack_registers}
use modbus_sim.Datastore.Value.{num, flag}
use modbus_sim.Datastore.Block.{MemoryBlock, make_block, read, write}
use modbus_sim.Datastore.Block.Valid as Block
use modbus_sim.Datastore.Block.Valid.{make_block-IsValid, write-IsValid}
use modbus_sim.Datastore.Block.Access.{get_or-write, read-write_self}
use modbus_sim.Datastore.Device.{Device, IsValid, IsRegister}
use modbus_sim.Datastore.Store.{add, make_store}
use modbus_sim.Dispatcher.{handle_request, process_pdu}
use modbus_sim.Dispatcher.Effect.{
  read_holding-write_multiple_registers, read_coils-write_multiple_coils,
}
use modbus_sim.Dispatcher.Reply.{reply, process_pdu-reply}
use modbus_sim.Dispatcher.Verdict.{verdict, outcome, ruling, handle_request-ruling}
use modbus_sim.Dispatcher.Separate.{handle_request-IsSeparate, told}
use modbus_sim.Dispatcher.Total.{IsAnswer, process_pdu-IsAnswer}
use modbus_sim.Tests.Data.{sensor, meter, plant, register_block}

abbrev updated_block : MemoryBlock
updated_block = record { size = 4; values = num 250 ∷ num 1 ∷ num 2 ∷ num 65535 ∷ [] }

write_two : write register_block 1 (num 1 ∷ num 2 ∷ []) ≡ ok updated_block
unfolding write
write_two = refl

write_past :
    write register_block 3 (num 1 ∷ num 2 ∷ []) ≡ err (modbus_error illegal_data_address none)
unfolding write
write_past = refl

too_many : make_block 1 (some (num 1 ∷ num 2 ∷ [])) (num 0) ≡ err value_error
unfolding make_block
too_many = refl

registers-IsValid : Block.IsValid IsRegister register_block
registers-IsValid = omega arith

abbrev small_block : MemoryBlock
small_block = record { size = 2; values = num 9 ∷ num 0 ∷ [] }

make_small : make_block 2 (some (num 9 ∷ [])) (num 0) ≡ ok small_block
unfolding make_block
make_small = refl

get_or-write_example : num 2 ≡ num 2
get_or-write_example =
    get_or-write IsRegister register_block 1 (num 1 ∷ num 2 ∷ []) registers-IsValid write_two 2
      (num 0)

read-write_self_example : read updated_block 1 2 ≡ ok (num 1 ∷ num 2 ∷ [])
read-write_self_example =
    read-write_self IsRegister register_block 1 (num 1 ∷ num 2 ∷ []) registers-IsValid write_two

add-meter : add (sensor ∷ []) meter ≡ ok plant
unfolding add
add-meter = refl

make_plant : make_store (sensor ∷ meter ∷ []) ≡ ok plant
unfolding make_store
make_plant = refl

sensor-IsValid : IsValid sensor
sensor-IsValid = omega arith

abbrev read_four : Bytes
read_four = 3 ∷ 0 ∷ 0 ∷ 0 ∷ 4 ∷ []

read_registers :
    (process_pdu sensor read_four).0 ≡ ok (3 ∷ 8 ∷ 0 ∷ 250 ∷ 0 ∷ 0 ∷ 0 ∷ 7 ∷ 255 ∷ 255 ∷ [])
unfolding process_pdu decode_request_pdu handle_request read encode_response_pdu pack_registers
read_registers = refl

-- An illegal quantity wins over an illegal address.
quantity_first : (process_pdu sensor (3 ∷ 255 ∷ 255 ∷ 0 ∷ 126 ∷ [])).0 ≡ ok (0x83 ∷ 3 ∷ [])
unfolding process_pdu decode_request_pdu handle_request encode_response_pdu set_mask clear_mask
quantity_first = refl

address_second : (process_pdu sensor (3 ∷ 255 ∷ 255 ∷ 0 ∷ 125 ∷ [])).0 ≡ ok (0x83 ∷ 2 ∷ [])
unfolding process_pdu decode_request_pdu handle_request read encode_response_pdu set_mask clear_mask
address_second = refl

unsupported : (process_pdu sensor (0x2B ∷ 0 ∷ [])).0 ≡ ok (0xAB ∷ 1 ∷ [])
unfolding process_pdu decode_request_pdu encode_response_pdu set_mask
unsupported = refl

process_pdu-reply_example : process_pdu sensor read_four ≡ reply sensor read_four
process_pdu-reply_example = process_pdu-reply sensor read_four sensor-IsValid (omega arith)

process_pdu-IsAnswer_example : IsAnswer (process_pdu sensor (7 ∷ []))
process_pdu-IsAnswer_example = process_pdu-IsAnswer sensor (7 ∷ []) sensor-IsValid (omega arith)

abbrev sensor_after : Device
sensor_after = record sensor { holding_registers = updated_block }

write_registers :
    handle_request sensor (write_multiple_registers_request 1 (1 ∷ 2 ∷ []))
    ≡ ok (write_multiple_registers_response 1 2, sensor_after)
unfolding handle_request write
write_registers = refl

handle_request-ruling_example :
    handle_request sensor (write_multiple_registers_request 1 (1 ∷ 2 ∷ []))
    ≡ ruling
        (verdict sensor (write_multiple_registers_request 1 (1 ∷ 2 ∷ [])))
        (outcome sensor (write_multiple_registers_request 1 (1 ∷ 2 ∷ [])))
handle_request-ruling_example =
    handle_request-ruling sensor (write_multiple_registers_request 1 (1 ∷ 2 ∷ []))

read_holding-write_multiple_registers_example :
    handle_request sensor_after (read_holding_registers_request 1 2)
    ≡ ok (read_holding_registers_response (1 ∷ 2 ∷ []), sensor_after)
read_holding-write_multiple_registers_example =
    read_holding-write_multiple_registers sensor 1 (1 ∷ 2 ∷ []) sensor-IsValid write_registers

abbrev sensor_switched : Device
sensor_switched = record sensor {
  coils = record { size = 4; values = flag true ∷ flag true ∷ flag true ∷ flag true ∷ [] };
}

write_coils :
    handle_request sensor (write_multiple_coils_request 1 (true ∷ true ∷ []))
    ≡ ok (write_multiple_coils_response 1 2, sensor_switched)
unfolding handle_request write
write_coils = refl

read_coils-write_multiple_coils_example :
    handle_request sensor_switched (read_coils_request 1 2)
    ≡ ok (read_coils_response (true ∷ true ∷ []), sensor_switched)
read_coils-write_multiple_coils_example =
    read_coils-write_multiple_coils sensor 1 (true ∷ true ∷ []) sensor-IsValid write_coils

handle_request-IsSeparate_example :
    told (handle_request sensor_after (read_holding_registers_request 3 1))
    ≡ told (handle_request sensor (read_holding_registers_request 3 1))
handle_request-IsSeparate_example =
    handle_request-IsSeparate sensor (write_multiple_registers_request 1 (1 ∷ 2 ∷ []))
      (read_holding_registers_request 3 1) (write_multiple_registers_response 1 2, sensor_after)
      sensor-IsValid write_registers tt (inr (inr (omega arith)))
