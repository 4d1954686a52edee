-- ===== src/Server.antt =====
-- src/server.rs: the server half of the handshake.
pub mod Select
pub mod Accept
pub mod Finish
pub mod NoPanic
use ws_pmd_rs.Base.{
  ℕ, suc, zero, ◌+◌, Bool, true, false, not, ◌||◌, [], ◌∷◌, List, Bytes, Option, none, some,
  bytes_eq, if◌then◌else◌, Outcome, ok, err, panic, ◌>>=◌, ◌>>◌, guard,
}
use ws_pmd_rs.Error.{NegotiationError, response_altered, extension_conflict}
use ws_pmd_rs.Http.{Http, lines}
use ws_pmd_rs.Config.{ServerConfig}
use ws_pmd_rs.Negotiated.{Negotiated, PmdComposition, compatible, conflict}
use ws_pmd_rs.Grammar.Split.{elements}
use ws_pmd_rs.Grammar.Trim.{trim, is_blank}
use ws_pmd_rs.Grammar.Params.{is_deflate, parse_params}
use ws_pmd_rs.Grammar.Validate.{validate}
use ws_pmd_rs.Client.Scan.{is_candidate, count_written}
use Select.{ServerHandshake, select}

module _ (H : Http) where
  -- The body of the loop of `accept`, at one element: `none` goes on, `some` returns.
  unfoldable pub accept_element :
      ServerConfig → Bytes → Outcome NegotiationError (Option (ServerHandshake H))
  accept_element config element = do
    candidate ← is_candidate element
    if candidate
        then elim (parse_params element) [
          | ok offer ↦ select H config offer
          | err e ↦ ok none
          | panic ↦ panic
        ]
        else ok none

  unfoldable pub accept_in :
      ServerConfig → List Bytes → Outcome NegotiationError (Option (ServerHandshake H))
  accept_in config [] = ok none
  accept_in config (element ∷ rest) = do
    accepted ← accept_element config element
    elim accepted [ some h ↦ ok (some h) | none ↦ accept_in config rest ]

  unfoldable pub accept_lines :
      ServerConfig → List Bytes → Outcome NegotiationError (Option (ServerHandshake H))
  accept_lines config [] = ok none
  accept_lines config (line ∷ rest) = do
    es ← elements line
    accepted ← accept_in config es
    elim accepted [ some h ↦ ok (some h) | none ↦ accept_lines config rest ]

  unfoldable pub accept :
      ServerConfig → H.HeaderMap → Outcome NegotiationError (Option (ServerHandshake H))
  accept config headers = do validate (lines H headers); accept_lines config (lines H headers)

  -- `match found`
  unfoldable pub resolve :
      Negotiated → ℕ → PmdComposition → Outcome NegotiationError (Option Negotiated)
  resolve agreement zero composition = ok none
  resolve agreement (suc zero) conflict = err extension_conflict
  resolve agreement (suc zero) compatible = ok (some agreement)
  resolve agreement (suc (suc n)) composition = err response_altered

  unfoldable pub finish :
      ServerHandshake H
      → H.HeaderMap
      → PmdComposition
      → Outcome NegotiationError (Option Negotiated)
  finish handshake headers composition = do
    validate (lines H headers)
    found ← count_written response_altered (H.as_bytes handshake.proposed) (lines H headers) 0
    resolve handshake.agreement found composition
