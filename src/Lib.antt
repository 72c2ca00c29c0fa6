-- ===== src/Lib.antt =====
-- Modbus TCP simulator (modbus_sim): its protocol core, its server and client, and its command line.
--
-- A peer's bytes reach `ModbusServer._handle_client`, which feeds them to a `StreamFramer`. The framer
-- cuts the stream into ADUs by the length field of the MBAP header. `_process_frame` looks up the
-- device of the ADU's unit id and hands the PDU to `process_pdu`, which decodes it, carries it out
-- on the device's four regions by `handle_request` and encodes the response or the exception
-- response; `build_adu` puts it under the request's transaction id. `ModbusClient` is the other end: it
-- encodes a request under its next transaction id and decodes the response. `build_datastore` makes the
-- devices of a validated configuration, some registers of which `_run_generators` keeps up to date. The command
-- line runs the server, or a client for one read or write, and scripts/bench.py runs many clients.
--
-- Which file models what:
--   Result                 the exceptions of the program, and functions that may raise as values
--   Frame                  modbus_sim/frame.py. Frame.Constants: the constants; Frame.Struct: the formats of
--                          Python's `struct` that the codec uses; Frame.Bits and Frame.Registers:
--                          `pack_bits`, `unpack_bits`, `pack_registers`, `unpack_registers`; Frame.Mbap: the
--                          header and `build_adu`; Frame.Request and Frame.Response: the dataclasses as one
--                          data type each, with their encoder and decoder
--   Datastore              modbus_sim/datastore.py. Datastore.Block: `MemoryBlock`; Datastore.Device and
--                          Datastore.Store: `Device` and `DataStore`; Datastore.Factory: `build_device`
--   Dispatcher             modbus_sim/dispatcher.py: `_require_quantity`, `handle_request`, `process_pdu`
--   Server.Framer          `StreamFramer` of modbus_sim/server.py: `feed`, `_next_frame`, `pending`
--   Server.Connection      `_process_frame` and `_handle_client` of modbus_sim/server.py
--   Server.Connection.Link one turn of `_handle_client`'s loop, as the peer of a client
--   Client                 modbus_sim/client.py: `ModbusClient`. Client.Receive: what it accepts; Client.Answer,
--                          Client.Served and Client.Session: the client and the server together
--   Generators             modbus_sim/generators.py; Generators.Floats: the floating-point numbers and the
--                          random choices as a parameter, `Runtime`
--   Config                 modbus_sim/config.py: the validators and `build_datastore`. Config.Load: `load_config` and
--                          `load_datastore`, from what YAML gave
--   Server.Tasks           the tasks of the event loop of modbus_sim/server.py as a step relation: connections
--                          and `_run_generators` in any order. Server.Tasks.Alone: the turns of one
--                          connection; Server.Tasks.Answers: what was written against what was read
--                          and what all tasks did before;
--                          Server.Tasks.Events: what became of each device; Server.Tasks.Rounds:
--                          `_run_generators` itself
--   Server.Lifecycle       `ModbusServer.__init__`, `start`, `sockets` and `serve_forever` of modbus_sim/server.py
--   Server.Log             `_fmt_peer`, `_log_request` and the lines of `_process_frame` of modbus_sim/server.py
--   Client.Message         the message of `ModbusExceptionError` of modbus_sim/client.py
--   Cli                    modbus_sim/cli.py. Cli.Text: `_coil_value`, `_int_list`, `_coil_list`; Cli.Arguments:
--                          `build_parser`; Cli: `_read_loop`, `_write`, `_run_client`, `_run_serve`, `main`;
--                          Cli.Reads, Cli.Writes and Cli.Shell: commands against the server
--   Bench                  scripts/bench.py: `_worker`, `_percentile` and the totals of `run`. Bench.Bag: the list of
--                          latencies that the workers share, as a bag
--   Prelude                lists, byte arithmetic and Boolean tests over the native numbers
--   Tests                  runs at concrete inputs, and each result at one of them
--
-- How the code corresponds: a function that may raise returns a `Result`, whose errors keep the class and the
-- function code of an exception and drop its message. An object that is changed in place is passed on:
-- an operation returns the block, device or store as it is afterwards. Python's integers are natural
-- numbers here, since every number comes from bytes, a length or a checked argument; the guards against negative ones are
-- left out. `i >> 3` is `i / 8`, `i & 7` is `i % 8`, `x >> k` is `x / 2 ^ k`, and `fc & ~0x80` is
-- `fc` less the bit 0x80. A byte string is a list of numbers; that they are below 256 is
-- a hypothesis where it matters. A dictionary of devices is the list of them in the order of insertion.
--
-- The `while` of `feed` runs on fuel, one more than the length of the buffer; every frame takes at least
-- eight bytes, and the result on `feed` shows that the loop never stops for want of fuel, since
-- it ends with no complete frame in the buffer.
--
-- The loop of `_read_loop` under `--watch` runs once more for each sleep that the user lets pass, and the loops of
-- `_run_generators` and `_worker` once for each time given; none of them needs fuel.
--
-- Not modelled: sockets, timeouts and the clock, `configure_logging` and the lines on connections
-- (modbus_sim/server.py), reading YAML and the type checks of pydantic (modbus_sim/config.py), the texts
-- and abbreviations of argparse (modbus_sim/cli.py), and the version and entry point (modbus_sim/__init__.py,
-- modbus_sim/__main__.py): they are input and output, or belong to libraries. Numbers that a user gives are integers of either sign in
-- Cli and Config.Load, which refuse negative ones where `struct` and the fields of the models do.
-- A tick of Server.Tasks updates one binding at a time and in any order, which covers the rounds of
-- `_run_generators`.
mod Prelude
pub mod Result
pub mod Frame
pub mod Datastore
pub mod Dispatcher
pub mod Server
pub mod Client
pub mod Generators
pub mod Config
pub mod Cli
pub mod Bench
mod Tests
