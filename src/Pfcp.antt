-- ===== src/Pfcp.antt =====
-- pfcp-common: the PFCP codec.
pub mod Types
pub mod Header
pub mod Tlv
pub mod Ie
pub mod Builder
pub mod Messages
pub mod Dict
pub mod Build
