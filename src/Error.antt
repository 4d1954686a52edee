-- ===== src/Error.antt =====
-- src/error.rs: why a handshake, a codec call or a setting was refused.
use ws_pmd_rs.Base.{ℕ}

pub data NegotiationError : Type 0 where
  malformed_header unknown_parameter duplicate_parameter invalid_window_bits : NegotiationError
  parameter_arity duplicate_extension server_takeover_not_honoured : NegotiationError
  server_window_unconfirmed server_window_too_large client_window_too_narrow : NegotiationError
  client_window_valueless offer_collision unsolicited_extension offer_altered : NegotiationError
  response_altered extension_conflict : NegotiationError

pub data CodecError : Type 0 where
  message_too_long : ℕ → ℕ → CodecError  -- size, limit
  invalid_stream compression_failed stalled poisoned : CodecError

pub data ConfigError : Type 0 where
  window_bits peer_window_bits compression_level : ConfigError
