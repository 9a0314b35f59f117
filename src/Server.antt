-- ===== src/Server.antt =====
-- zb_rpc_server/main/rpc_server.cpp: the handlers, their dispatch and the loop that serves one
-- client. The Zigbee API, the state of the PPP link and what `recv` answers when it peeks at the
-- client's socket are parameters.
pub mod Handlers
pub mod Dispatch
pub mod Serve
pub mod Routes
pub mod Catalog
pub mod Unknown
pub mod Rounds
pub mod Remote
pub mod Annce
pub mod Errors
pub mod Termination
pub mod Session
pub mod Task
