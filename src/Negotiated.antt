-- ===== src/Negotiated.antt =====
-- src/negotiated.rs: the agreement, and the wire rendering that both roles share.
pub mod Render
use ws_pmd_rs.Base.{ℕ, Bool}

pub data Role : Type 0 where
  client server : Role

pub data PmdComposition : Type 0 where
  compatible conflict : PmdComposition

pub record Negotiated : Type 0 where
  pub role : Role
  pub server_no_context_takeover : Bool
  pub client_no_context_takeover : Bool
  pub server_max_window_bits : ℕ
  pub client_max_window_bits : ℕ

abbrev pub by_role {ℓ} : {A : Type ℓ} → Role → A → A → A
by_role client c s = c
by_role server c s = s

unfoldable pub local_no_context_takeover : Negotiated → Bool
local_no_context_takeover n =
    by_role n.role n.client_no_context_takeover n.server_no_context_takeover

unfoldable pub peer_no_context_takeover : Negotiated → Bool
peer_no_context_takeover n =
    by_role n.role n.server_no_context_takeover n.client_no_context_takeover

unfoldable pub local_max_window_bits : Negotiated → ℕ
local_max_window_bits n = by_role n.role n.client_max_window_bits n.server_max_window_bits

unfoldable pub peer_max_window_bits : Negotiated → ℕ
peer_max_window_bits n = by_role n.role n.server_max_window_bits n.client_max_window_bits
