-- ===== src/Buffer.antt =====
-- The buffers of include/buffer/ and common/buffer/.
pub mod Store
pub mod Ptr
pub mod Blist
pub mod Links
