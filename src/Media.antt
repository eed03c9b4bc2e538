-- ===== src/Media.antt =====
-- packages/media/src: the SP-RC1 recording protocol.
pub mod Protocol
pub mod Bytes
pub mod Records
pub mod Intervals
pub mod Multipart
pub mod Ledger
pub mod Canonical
pub mod Decryption
pub mod Encoding
pub mod Manifest
