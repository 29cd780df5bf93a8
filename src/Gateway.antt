-- ===== src/Gateway.antt =====
-- The capability with which the gateway answers for its backends: gateway/capability. The requests
-- to the backends are arguments: what each of them lists, and what it answers a call.
pub mod Headers
pub mod Backends
pub mod Tools
pub mod Resources
pub mod Examples
