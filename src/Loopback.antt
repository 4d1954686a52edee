-- ===== src/Loopback.antt =====
-- src/encoder.rs against src/codec.rs: what one end commits, the other end decodes.
pub mod Format
pub mod Rounds
pub mod Drained
pub mod Read
pub mod Decoded
pub mod Passed
pub mod InStep
pub mod Paired
pub mod Ends
pub mod Hosts
pub mod Posted
pub mod Arrived
pub mod Plain
pub mod Conversation
pub mod Connection
