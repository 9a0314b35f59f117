-- ===== src/Lib.antt =====
-- A verification library for the Zigbee RPC system of this repository: a firmware that runs a
-- Zigbee coordinator and serves its API over TCP on a PPP link, and a Linux client that calls that
-- API and commissions a temperature sensor with it.
--
-- The parts, from the bottom:
--   * Protocol (zb_rpc_shared/include/zb_rpc/protocol.hpp): little-endian words, call identifiers,
--     error codes, the packed structs with the bytes that stand for them, and the call descriptors.
--     A byte is a natural number, below 256 where the source has one; a w-bit integer is a natural number or an integer with the
--     wrap-around of the casts written out (to_u16, to_s16, ...).
--   * Fd (`read_all` and `write_all` of zb_rpc_shared/include/zb_rpc/engine.hpp): a descriptor is the
--     list of what `::read` will answer, the list of what `::write` will answer, and the bytes sent
--     so far. Segments of any size, EINTR, other errors and the end of the stream are answers.
--   * Engine (class `Engine`, `call`, `invoke_one` in the same file; Engine.Rpc also has the fold of
--     zb_rpc/include/zb_rpc/dispatch.hpp): a record with the descriptor and `last_error`; a method that
--     returns false and fills an argument returns an Option. Both overloads of `call` are there:
--     `call_empty` and `call`.
--   * Zigbee (zb_rpc_server/main/zigbee_api.h): the API as a record of functions over a state, which
--     the firmware and the client's RPC layer implement.
--   * Server (zb_rpc_server/main/rpc_server.cpp): Handlers has the thirteen handlers and
--     `client_connected`, Dispatch has `dispatch`, Serve has `serve_client`, Task
--     has `create_listener` and `server_task`, which goes as far as its calls are answered. The state is `s_client_fd` and the state of the firmware.
--   * Client (zb_rpc_client/include/zigbee_api.h): `g_fd`, `attach`, `detach` and the thirteen functions.
--   * Thermostat (zb_rpc_client/include/thermostat_app.hpp): `run` over any implementation of the API.
--   * Main (zb_rpc_client/main.cpp): the one or two connections of `main`, with a run over each;
--     Connect has `wait_for_link` and `connect_rpc`, Options has `parse_options`.
--   * Simulator (zb_rpc/src/sim_zigbee.cpp, zb_rpc/src/server.cpp): the simulated coordinator of the
--     desktop demo; Serve has the dispatch over a namespace (zb_rpc/include/zb_rpc/auto_rpc.hpp) and
--     `handle_commands`, and Program is `main` with its sockets (zb_rpc/include/zb_rpc/sock.hpp).
--   * Dump (zb_rpc_shared/include/zb_rpc/reflection.hpp): the buffer and the text of a struct for the
--     log. What reflection finds in a struct is part of the value.
--   * Stack (zb_rpc_server/main/zigbee_stack.c): the queues, semaphores and caches behind the firmware's
--     API, the SDK's callbacks as events (Events), the API functions that wait for them (Calls), and
--     their requests (Requests). What the SDK's request functions return and which callbacks come
--     before the timeout is input, and the SDK's constants are the record `Sdk`.
--   * Uart (zb_rpc_server/main/ppp_uart.c): the bits of the event group and the handlers that set
--     them; Transmit and Receive have the loops over the UART, Reconnect the reconnect task as steps
--     between which events come in any order, Start the set-up. What the driver answers is input.
--   * Transport (zb_rpc_client/serial_io.c, ppp_link.c, ppp_lwip.c): the objects of the host program,
--     its descriptors and its threads, where an access to an object that is not allocated gives
--     `none`. SerialIo, PppLink and Lwip have the functions of the three files, Threads the rounds of
--     the threads, Tun the packets between PPP and the TUN device, and Program is `main` of
--     zb_rpc_client/main.cpp over all of them. What the kernel and lwIP answer is input, with the
--     frames that lwIP sends.
--   * Forward (zb_rpc_client/netdev_fwd.c): a forwarded TCP connection. Accept and Listen have the
--     set-up, Thread the thread that reads the host's end, in steps between which lwIP's callbacks
--     come in any order, up to the first use of an object that is not allocated.
--   * Pipe: a client and a server at the two ends of one connection. Each call of the client's API is
--     answered by one round of the server, and the kernel keeps what is not yet read.
--   * Desktop (zb_rpc/src/client.cpp, zb_rpc/include/zb_rpc/catalog.hpp): the desktop client, over its
--     interface, whose `close` is the `::close` on each exit; Link has it and the simulated coordinator at the two ends of one connection.
--   * Tests: all of it on concrete inputs.
-- Prelude has the shared names, tests and lemmas.
--
-- Parameters. The firmware behind the server (its Zigbee stack, the PPP flag and the peek at the
-- socket) is the record `Firmware`, an argument of the server's definitions; what a theorem needs of
-- it is a named hypothesis (`IsTimely`, `IsPatient`, `IsTyped`). What the kernel answers and what `connect_rpc`
-- returns is input.
--
-- Termination and fuel. `discard_loop` and `annce_loop` recurse on a number that falls by a chunk or a
-- slice each round. `serve_loop` takes fuel, and `serve_client` gives it one more than the bytes that
-- can still arrive: each round that goes on takes a header of twelve bytes. `commands_loop` of
-- Simulator has the same fuel.
--
-- `drain_loop` of Uart takes the number of bytes that are left as fuel, since each round reads one at
-- least. The loops that repeat a write recurse on the list of answers.
--
-- Not modelled: the start of the server's task, signals, ESP-IDF, lwIP and the
-- kernel, log output, the sleeps, the catalog found by reflection as text,
-- and the copies of other projects under tools.
pub mod Prelude
pub mod Protocol
pub mod Fd
pub mod Engine
pub mod Dump
pub mod Zigbee
pub mod Server
pub mod Client
pub mod Thermostat
pub mod Stack
pub mod Main
pub mod Uart
pub mod Transport
pub mod Forward
pub mod Pipe
pub mod Simulator
pub mod Desktop
pub mod Tests
