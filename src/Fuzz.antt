-- ===== src/Fuzz.antt =====
-- fuzz/: the record format of the fuzz targets, and the targets themselves.
pub mod Fragments
pub mod Fields
pub mod Client
pub mod Decoder
pub mod Handshakes
