-- ===== src/Buffer.antt =====
-- envoy/envoy/source/common/buffer: buffers with watermarks.
pub mod Watermark
