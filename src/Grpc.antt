-- ===== src/Grpc.antt =====
-- envoy/envoy/source/common/grpc: the framing of messages.
pub mod Codec
