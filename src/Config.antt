-- ===== src/Config.antt =====
-- src/rcm/config: the stored configuration.
pub mod Formats
pub mod Laws
pub mod Codec
pub mod Decoding
pub mod Disk
pub mod Safe
pub mod Store
