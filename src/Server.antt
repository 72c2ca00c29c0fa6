-- ===== src/Server.antt =====
-- modbus_sim/server.py: the reassembly of frames, the handling of a frame and of a connection, and the server from its
-- start to its end.
pub mod Framer
pub mod Connection
pub mod Tasks
pub mod Log
pub mod Lifecycle
