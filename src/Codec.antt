-- ===== src/Codec.antt =====
-- src/codec.rs: the decoder of one connection.
pub mod Backend
pub mod Numbers
pub mod Inflater
pub mod Step
pub mod Inflate
pub mod Decompress
pub mod Moves
pub mod Progress
pub mod Bounded
pub mod Delivered
pub mod Message
pub mod NoPanic
pub mod Sound
