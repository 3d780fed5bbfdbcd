-- ===== src/Redis.antt =====
-- envoy/envoy/source/common/redis: the codec of the Redis protocol.
pub mod Codec
pub mod Encoder
