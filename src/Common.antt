-- ===== src/Common.antt =====
-- envoy/envoy/source/common/common: utilities on strings and on the codings of bytes.
pub mod StringUtil
pub mod Base64
pub mod Hex
