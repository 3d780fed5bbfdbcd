-- ===== src/Server.antt =====
-- envoy/envoy/source/server: the start of the server, and its draining.
pub mod DrainManager
pub mod InitManager
