-- ===== src/Jsonrpc.antt =====
-- src/jsonrpc/mod.rs: what the proxy reads of a request and of a response.
pub mod Libs
pub mod Shape
pub mod Method
pub mod Fault
pub mod FaultText
pub mod Dedup
pub mod Request
