-- ===== src/Frame/Constants.antt =====
-- The protocol constants of modbus_sim/frame.py.
use modbus_sim.Prelude.{ℕ}

abbrev pub mbap_header_len : ℕ
mbap_header_len = 7

abbrev pub protocol_id : ℕ
protocol_id = 0

abbrev pub max_adu_len : ℕ
max_adu_len = 260

abbrev pub max_pdu_len : ℕ
max_pdu_len = 253

abbrev pub min_length_field : ℕ
min_length_field = 2

abbrev pub max_length_field : ℕ
max_length_field = 260

abbrev pub read_coils : ℕ
read_coils = 0x01

abbrev pub read_discrete_inputs : ℕ
read_discrete_inputs = 0x02

abbrev pub read_holding_registers : ℕ
read_holding_registers = 0x03

abbrev pub read_input_registers : ℕ
read_input_registers = 0x04

abbrev pub write_single_coil : ℕ
write_single_coil = 0x05

abbrev pub write_single_register : ℕ
write_single_register = 0x06

abbrev pub write_multiple_coils : ℕ
write_multiple_coils = 0x0F

abbrev pub write_multiple_registers : ℕ
write_multiple_registers = 0x10

abbrev pub exception_mask : ℕ
exception_mask = 0x80

abbrev pub illegal_function_code : ℕ
illegal_function_code = 0x01

abbrev pub illegal_data_address_code : ℕ
illegal_data_address_code = 0x02

abbrev pub illegal_data_value_code : ℕ
illegal_data_value_code = 0x03

abbrev pub server_device_failure_code : ℕ
server_device_failure_code = 0x04

abbrev pub coil_on : ℕ
coil_on = 0xFF00

abbrev pub coil_off : ℕ
coil_off = 0x0000

abbrev pub max_read_bits : ℕ
max_read_bits = 2000

abbrev pub max_read_registers : ℕ
max_read_registers = 125

abbrev pub max_write_coils : ℕ
max_write_coils = 1968

abbrev pub max_write_registers : ℕ
max_write_registers = 123
