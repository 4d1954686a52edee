-- ===== src/Server/Select.antt =====
-- src/server.rs: `select`, and the handshake that it makes.
pub mod Correct
pub mod Proposal
use ws_pmd_rs.Base.{
  ℕ, Bool, ◌||◌, Option, none, some, ◌==◌, ltb, min, unwrap_or, and_then, if◌then◌else◌, Outcome,
  ok, ◌>>=◌,
}
use ws_pmd_rs.Error.{NegotiationError}
use ws_pmd_rs.Http.{Http}
use ws_pmd_rs.Config.{ServerConfig}
use ws_pmd_rs.Grammar.Params.{Params, ClientWindow, absent, valueless, bits}
use ws_pmd_rs.Negotiated.{Negotiated, server}
use ws_pmd_rs.Negotiated.Render.{ClientBits, omit, bits as client_bits, render}

abbrev pub max_window_bits : ℕ
max_window_bits = 15

-- `match offer.server_max_window_bits`; the outer `none` is the early return
unfoldable pub server_window : ℕ → Option ℕ → Option (Option ℕ)
server_window supported (some b) = if b == 8 then none else some (some (min b supported))
server_window supported none =
    if ltb supported max_window_bits then some (some supported) else some none

-- `match offer.client_max_window_bits`
unfoldable pub client_window : ℕ → ClientWindow → Option (Option ℕ)
client_window supported absent = if ltb supported max_window_bits then none else some none
client_window supported valueless = some (some supported)
client_window supported (bits b) = some (some (min b supported))

-- `.filter(|bits| *bits < MAX_WINDOW_BITS).map_or(ClientBits::Omit, ClientBits::Bits)`
abbrev pub echoed : Option ℕ → ClientBits
echoed none = omit
echoed (some b) = if ltb b max_window_bits then client_bits b else omit

-- What `select` settles before it renders; `none` declines the alternative.
pub record Selection : Type 0 where
  pub server_takeover : Bool
  pub client_takeover : Bool
  pub server_bits : Option ℕ
  pub client_bits : Option ℕ

unfoldable pub settle : ServerConfig → Params → Option Selection
settle config offer =
    and_then (server_window config.server_max_window_bits offer.server_max_window_bits) (λ s.
      and_then (client_window config.client_max_window_bits offer.client_max_window_bits) (λ c.
        some (record {
          server_takeover = config.server_no_context_takeover || offer.server_no_context_takeover;
          client_takeover = config.client_no_context_takeover || offer.client_no_context_takeover;
          server_bits = s;
          client_bits = c;
        })))

unfoldable pub agreement_of : Selection → Negotiated
agreement_of s = record {
  role = server;
  server_no_context_takeover = s.server_takeover;
  client_no_context_takeover = s.client_takeover;
  server_max_window_bits = unwrap_or s.server_bits max_window_bits;
  client_max_window_bits = unwrap_or s.client_bits max_window_bits;
}

module _ (H : Http) where
  pub record ServerHandshake : Type 0 where
    pub proposed : H.HeaderValue
    pub agreement : Negotiated

  -- `render` at the settled values
  unfoldable pub propose : Selection → Outcome NegotiationError H.HeaderValue
  propose s = render H s.server_takeover s.client_takeover s.server_bits (echoed s.client_bits)

  -- What `select` returns on what it settled.
  abbrev pub respond : Option Selection → Outcome NegotiationError (Option ServerHandshake)
  respond none = ok none
  respond (some s) = do
    v ← propose s
    ok (some (record { proposed = v; agreement = agreement_of s }))

  unfoldable pub select : ServerConfig → Params → Outcome NegotiationError (Option ServerHandshake)
  select config offer = respond (settle config offer)
