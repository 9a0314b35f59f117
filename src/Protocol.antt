-- ===== src/Protocol.antt =====
-- zb_rpc_shared/include/zb_rpc/protocol.hpp: the little-endian words, the identifiers, the wire
-- structs and the call descriptors that client and server share.
pub mod Endian
pub mod ApiId
pub mod Codes
pub mod Payloads
pub mod WireSafe
pub mod Desc
