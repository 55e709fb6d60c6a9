-- ===== src/Core.antt =====
-- crates/sqnr-core: keys and the signed-transaction protocol.
pub mod Error
pub mod Bytes
pub mod Key
pub mod Reader
pub mod Tx
pub mod Signed
