-- ===== src/Rpc.antt =====
-- crates/rpc: the wire types of JSON-RPC, and the server of crates/rpc/bidirectional.
pub mod Manager
pub mod Types
pub mod Server
pub mod Context
pub mod Wire
pub mod Handler
pub mod Upgrade
