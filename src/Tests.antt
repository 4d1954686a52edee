-- ===== src/Tests.antt =====
-- Runs of the model of src/ on concrete fields, and the theorems at concrete inputs.
pub mod Wires
pub mod Grammar
pub mod Handshakes
pub mod Decoding
pub mod Encoding
pub mod Streams
pub mod Fuzzing
pub mod Marks
pub mod Reading
pub mod Looped
pub mod Connected
