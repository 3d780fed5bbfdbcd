-- ===== src/Upstream.antt =====
-- envoy/envoy/source/common/upstream: the clusters, their resources, hosts and load balancers.
pub mod Resource
pub mod HealthChecker
pub mod LoadBalancer
pub mod OutlierDetection
pub mod RingHash
