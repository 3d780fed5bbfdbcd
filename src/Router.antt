-- ===== src/Router.antt =====
-- envoy/envoy/source/common/router: the retry state of a request.
pub mod Retry
