-- ===== src/Encoder.antt =====
-- src/encoder.rs: the encoder of one connection.
pub mod Backend
pub mod Frame
pub mod Drive
pub mod Transaction
pub mod Steps
pub mod History
pub mod Strip
pub mod Bounded
