-- ===== src/Proto.antt =====
-- The packet layouts of inc/warppipe/proto.h and the header arithmetic of src/proto.c.
pub mod Layout
pub mod ConfigHeader
pub mod Fields
pub mod Header
pub mod Length
pub mod Address
pub mod Request
pub mod Agree
