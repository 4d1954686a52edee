-- ===== src/Client.antt =====
-- src/client.rs: the client half of the handshake.
pub mod Scan
pub mod Agree
pub mod Offer
pub mod Seal
pub mod Finish
pub mod NoPanic
use ws_pmd_rs.Base.{
  ℕ, suc, Bool, true, false, not, ◌&&◌, [], ◌∷◌, List, Bytes, Option, none, some, ◌==◌, bytes_eq,
  if◌then◌else◌, Outcome, ok, err, ◌>>=◌, ◌>>◌, guard,
}
use ws_pmd_rs.Error.{
  NegotiationError, offer_collision, offer_altered, unsolicited_extension, extension_conflict,
}
use ws_pmd_rs.Http.{Http, lines}
use ws_pmd_rs.Config.{ClientConfig}
use ws_pmd_rs.Negotiated.{Negotiated, PmdComposition, compatible, conflict}
use ws_pmd_rs.Negotiated.Render.{ClientBits, valueless, bits, render}
use ws_pmd_rs.Grammar.Params.{Params}
use ws_pmd_rs.Grammar.Validate.{validate}
use Scan.{contains_deflate, sole_deflate, count_written}
use Agree.{agree}

abbrev pub max_window_bits : ℕ
max_window_bits = 15

-- The `server_bits` and `client_bits` of `render_offer`.
abbrev pub server_bits_of : ClientConfig → Option ℕ
server_bits_of c =
    if c.server_max_window_bits == max_window_bits then none else some c.server_max_window_bits

abbrev pub client_bits_of : ClientConfig → ClientBits
client_bits_of c =
    if c.client_max_window_bits == max_window_bits then valueless else bits c.client_max_window_bits

module _ (H : Http) where
  pub record ClientOffer : Type 0 where
    pub config : ClientConfig
    pub installed : H.HeaderValue

  pub record SealedOffer : Type 0 where
    pub config : ClientConfig
    pub sealed : H.HeaderValue

  -- `none` is a request that was proved to carry no offer.
  pub record ClientHandshake : Type 0 where
    pub offer : Option SealedOffer

  unfoldable pub render_offer : ClientConfig → Outcome NegotiationError H.HeaderValue
  render_offer c =
      render H c.server_no_context_takeover c.client_no_context_takeover (server_bits_of c)
        (client_bits_of c)

  -- The offer, and the request with the offer in it. An error leaves the request as it was.
  unfoldable pub install :
      ClientConfig → H.HeaderMap → Outcome NegotiationError (ClientOffer × H.HeaderMap)
  install config headers = do
    taken ← contains_deflate (lines H headers)
    guard (not taken) offer_collision
    installed ← render_offer config
    ok (record { config = config; installed = installed }, H.append headers installed)

  unfoldable pub seal : ClientOffer → H.HeaderMap → Outcome NegotiationError ClientHandshake
  seal offer headers = do
    found ← count_written offer_altered (H.as_bytes offer.installed) (lines H headers) 0
    guard (found == 1) offer_altered
    ok (record { offer = some (record { config = offer.config; sealed = offer.installed }) })

  unfoldable pub seal_without_offer : H.HeaderMap → Outcome NegotiationError ClientHandshake
  seal_without_offer headers = do
    taken ← contains_deflate (lines H headers)
    guard (not taken) offer_collision
    ok (record { offer = none })

  -- `value`
  unfoldable pub value : ClientHandshake → Option H.HeaderValue
  value h = elim h.offer [ none ↦ none | some o ↦ some o.sealed ]

  -- `finish` behind the two reads of the response.
  unfoldable pub finish_selected :
      Option SealedOffer
      → PmdComposition
      → Option Params
      → Outcome NegotiationError (Option Negotiated)
  finish_selected offer composition none = ok none
  finish_selected none composition (some params) = err unsolicited_extension
  finish_selected (some offer) conflict (some params) = err extension_conflict
  finish_selected (some offer) compatible (some params) = do
    n ← agree offer.config params
    ok (some n)

  unfoldable pub finish :
      ClientHandshake → H.HeaderMap → PmdComposition → Outcome NegotiationError (Option Negotiated)
  finish handshake headers composition = do
    validate (lines H headers)
    selected ← sole_deflate (lines H headers) none
    finish_selected handshake.offer composition selected
