-- ===== src/Handshake.antt =====
-- src/client.rs and src/server.rs together: both halves of one handshake.
pub mod Values
pub mod Carried
pub mod Wire
pub mod Agreement
pub mod Codecs
pub mod Minted
