-- ===== src/Config.antt =====
-- src/config.rs: local policy.
mod Checks
pub mod Client
pub mod Server
pub mod Encoder
pub use Client.{ClientConfig}
pub use Server.{ServerConfig}
pub use Encoder.{EncoderConfig}
