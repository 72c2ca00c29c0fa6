-- ===== src/Frame.antt =====
-- modbus_sim/frame.py: the codec of MBAP headers and PDUs.
pub mod Constants
pub mod Struct
pub mod Bits
pub mod Registers
pub mod Mbap
pub mod Request
pub mod Response
