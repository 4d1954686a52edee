-- ===== src/Client/Agree.antt =====
-- src/client.rs: `SealedOffer::agree`.
pub mod Correct
use ws_pmd_rs.Base.{
  ℕ, not, ◌&&◌, ◌||◌, Option, none, some, ltb, min, if◌then◌else◌, Outcome, ok, err, ◌>>=◌, ◌>>◌,
  guard,
}
use ws_pmd_rs.Error.{
  NegotiationError, server_takeover_not_honoured, server_window_too_large,
  server_window_unconfirmed, client_window_valueless, client_window_too_narrow,
}
use ws_pmd_rs.Config.{ClientConfig}
use ws_pmd_rs.Grammar.Params.{Params, ClientWindow, absent, valueless, bits}
use ws_pmd_rs.Negotiated.{Negotiated, client}

-- `match params.server_max_window_bits`
unfoldable pub server_window : ℕ → Option ℕ → Outcome NegotiationError ℕ
server_window offered (some b) = if ltb offered b then err server_window_too_large else ok b
server_window offered none = if ltb offered 15 then err server_window_unconfirmed else ok 15

-- `match params.client_max_window_bits`
unfoldable pub client_window : ℕ → ClientWindow → Outcome NegotiationError ℕ
client_window offered valueless = err client_window_valueless
client_window offered (bits b) =
    if ltb b 9 then err client_window_too_narrow else ok (min b offered)
client_window offered absent = ok offered

unfoldable pub agree : ClientConfig → Params → Outcome NegotiationError Negotiated
agree config params = do
  guard (not (config.server_no_context_takeover && not params.server_no_context_takeover))
      server_takeover_not_honoured
  let client_takeover = config.client_no_context_takeover || params.client_no_context_takeover
  server_bits ← server_window config.server_max_window_bits params.server_max_window_bits
  client_bits ← client_window config.client_max_window_bits params.client_max_window_bits
  ok (record {
    role = client;
    server_no_context_takeover = params.server_no_context_takeover;
    client_no_context_takeover = client_takeover;
    server_max_window_bits = server_bits;
    client_max_window_bits = client_bits;
  })
