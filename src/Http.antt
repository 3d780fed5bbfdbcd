-- ===== src/Http.antt =====
-- envoy/envoy/source/common/http: connections to upstream hosts, and headers.
pub mod ConnPool
pub mod FilterChain
pub mod HeaderMap
pub mod DownstreamWatermarks
pub mod HeaderString
