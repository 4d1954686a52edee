-- ===== src/Grammar.antt =====
-- src/grammar.rs: the `Sec-WebSocket-Extensions` grammar, over raw bytes.
pub mod Split
pub mod Trim
pub mod Token
pub mod Unquote
pub mod WindowBits
pub mod Params
pub mod Validate
pub mod Field
pub mod Deflate
pub mod NoPanic
pub mod Running
