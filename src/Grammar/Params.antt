-- ===== src/Grammar/Params.antt =====
-- src/grammar.rs: the four parameters, `parse_params` and the name test.
pub mod Bounds
pub mod Blank
use ws_pmd_rs.Base.{
  ℕ, suc, Bool, true, false, [], ◌∷◌, List, Bytes, Option, none, some, ◌==◌, position, drop,
  unwrap_or, get_range, length, bytes_eq, codes, if◌then◌else◌, Outcome, ok, err, ok_or, ◌>>=◌,
}
use ws_pmd_rs.Error.{NegotiationError, parameter_arity, duplicate_parameter, unknown_parameter}
use ws_pmd_rs.Grammar.Split.{segments}
use ws_pmd_rs.Grammar.Trim.{trim}
use ws_pmd_rs.Grammar.WindowBits.{parse_bits}

abbrev pub name : Bytes
name = codes "permessage-deflate"

-- `segments.first().copied().unwrap_or_default()`
abbrev pub first_or_default : List Bytes → Bytes
first_or_default [] = []
first_or_default (s ∷ ss) = s

unfoldable pub is_deflate : Bytes → Outcome NegotiationError Bool
is_deflate element = do parts ← segments element; ok (bytes_eq (trim (first_or_default parts)) name)

pub data ClientWindow : Type 0 where
  absent valueless : ClientWindow
  bits : ℕ → ClientWindow

pub record Params : Type 0 where
  pub server_no_context_takeover : Bool
  pub client_no_context_takeover : Bool
  pub server_max_window_bits : Option ℕ
  pub client_max_window_bits : ClientWindow

unfoldable pub split_parameter : Bytes → Bytes × Option Bytes
unfolding get_range
split_parameter segment = elim (position (λ c. c == b'=') segment) [
  | none ↦ (segment, none)
  | some index ↦
      (unwrap_or (get_range segment 0 index) [], get_range segment (suc index) (length segment))
]

unfoldable pub no_value : Option Bytes → Outcome NegotiationError Bool
no_value none = ok true
no_value (some value) = err parameter_arity

-- `slot.replace(value)`: the new slot, refused where the old one was full
abbrev pub set_once {ℓ} : {A : Type ℓ} → Option A → A → Outcome NegotiationError (Option A)
set_once none value = ok (some value)
set_once (some old) value = err duplicate_parameter

-- The four slots of the loop.
pub record Staged : Type 0 where
  pub server_takeover : Option Bool
  pub client_takeover : Option Bool
  pub server_window : Option ℕ
  pub client_window : Option ClientWindow

abbrev pub nothing_staged : Staged
nothing_staged = record {
  server_takeover = none;
  client_takeover = none;
  server_window = none;
  client_window = none;
}

-- The inner `match value` of the fourth parameter.
unfoldable pub window_of : Option Bytes → Outcome NegotiationError ClientWindow
window_of (some value) = do b ← parse_bits value; ok (bits b)
window_of none = ok valueless

-- The `match trim(name)` of the loop.
unfoldable pub stage : Bytes → Option Bytes → Staged → Outcome NegotiationError Staged
stage key value s =
    if bytes_eq key (codes "server_no_context_takeover")
    then (do
      v ← no_value value
      slot ← set_once s.server_takeover v
      ok (record s { server_takeover = slot }))
    else if bytes_eq key (codes "client_no_context_takeover")
    then (do
      v ← no_value value
      slot ← set_once s.client_takeover v
      ok (record s { client_takeover = slot }))
    else if bytes_eq key (codes "server_max_window_bits")
    then (do
      given ← ok_or value parameter_arity
      v ← parse_bits given
      slot ← set_once s.server_window v
      ok (record s { server_window = slot }))
    else if bytes_eq key (codes "client_max_window_bits")
    then (do
      v ← window_of value
      slot ← set_once s.client_window v
      ok (record s { client_window = slot }))
    else err unknown_parameter

-- The loop over the segments behind the name.
unfoldable pub stage_all : List Bytes → Staged → Outcome NegotiationError Staged
stage_all [] s = ok s
stage_all (segment ∷ rest) s = do
  let (key, value) = split_parameter segment
  next ← stage (trim key) value s
  stage_all rest next

abbrev pub to_params : Staged → Params
to_params s = record {
  server_no_context_takeover = unwrap_or s.server_takeover false;
  client_no_context_takeover = unwrap_or s.client_takeover false;
  server_max_window_bits = s.server_window;
  client_max_window_bits = unwrap_or s.client_window absent;
}

unfoldable pub parse_params : Bytes → Outcome NegotiationError Params
parse_params element = do
  parts ← segments element
  staged ← stage_all (drop 1 parts) nothing_staged
  ok (to_params staged)
