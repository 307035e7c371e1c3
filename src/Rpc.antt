-- ===== src/Rpc.antt =====
-- rpc/ and common_data/: what the daemon asks of the IEX service, and the server that it starts.
pub mod Client
pub mod Service
pub mod Method
