-- ===== src/Grammar/Params/Bounds.antt =====
-- Proofs about `parse_params` of src/grammar.rs.
use ws_pmd_rs.Base.{
  ℕ, ◌≤◌, ◌≡◌, sym, [], ◌∷◌, List, Bytes, Option, none, some, Bool-cases, inl, inr, bytes_eq, codes,
  drop, unwrap_or, ok, ok_or, ◌>>=◌, >>=-eq-ok, ok-injective,
}
use ws_pmd_rs.Error.{parameter_arity}
use ws_pmd_rs.Grammar.Split.{segments}
use ws_pmd_rs.Grammar.Trim.{trim}
use ws_pmd_rs.Grammar.WindowBits.{parse_bits}
use ws_pmd_rs.Grammar.WindowBits.Correct.{parse_bits_iff}
use ws_pmd_rs.Grammar.Params.{
  ClientWindow, absent, valueless, bits, Params, split_parameter, no_value, set_once, Staged,
  nothing_staged, window_of, stage, stage_all, to_params, parse_params,
}

-- A width that the wire can carry.
abbrev pub IsWidth : ℕ → Type 0
IsWidth n = (8 ≤ n) × (n ≤ 15)

abbrev pub ServerWindowInRange : Option ℕ → Type 0
ServerWindowInRange none = Unit
ServerWindowInRange (some n) = IsWidth n

abbrev pub ClientWindowInRange : ClientWindow → Type 0
ClientWindowInRange absent = Unit
ClientWindowInRange valueless = Unit
ClientWindowInRange (bits n) = IsWidth n

abbrev pub ParamsInRange : Params → Type 0
ParamsInRange p =
    ServerWindowInRange p.server_max_window_bits × ClientWindowInRange p.client_max_window_bits

abbrev SlotInRange : Option ClientWindow → Type 0
SlotInRange none = Unit
SlotInRange (some w) = ClientWindowInRange w

abbrev StagedInRange : Staged → Type 0
StagedInRange s = ServerWindowInRange s.server_window × SlotInRange s.client_window

parse_bits-IsWidth : (v : Bytes) {n : ℕ} → parse_bits v ≡ ok n → IsWidth n
parse_bits-IsWidth v {n} h = let (m, lo, hi) = (parse_bits_iff v n).0 h in (lo, hi)

window_of-InRange :
    (value : Option Bytes) {w : ClientWindow} → window_of value ≡ ok w → ClientWindowInRange w
unfolding window_of
window_of-InRange none h = rw (← ok-injective h) tt
window_of-InRange (some v) h =
    let (n, hn, e) = >>=-eq-ok (parse_bits v) _ h in rw (← ok-injective e) (parse_bits-IsWidth v hn)

set_once-eq-ok :
    {A : Type 0} (slot : Option A) (v : A) {next : Option A}
    → set_once slot v ≡ ok next
    → next ≡ some v
set_once-eq-ok none v h = sym (ok-injective h)
set_once-eq-ok (some old) v h = cc

module _ (value : Option Bytes) (s : Staged) (r : StagedInRange s) {t : Staged} where
  server_takeover-InRange :
      (no_value value >>= λ v.
      set_once s.server_takeover v >>= λ slot. ok (record s { server_takeover = slot }))
        ≡ ok t
      → StagedInRange t
  server_takeover-InRange h =
      let (v, hv, k) = >>=-eq-ok (no_value value) _ {result = t} h in
      let (slot, hs, e) = >>=-eq-ok (set_once s.server_takeover v) _ {result = t} k in
      rw (← ok-injective e) r

  client_takeover-InRange :
      (no_value value >>= λ v.
      set_once s.client_takeover v >>= λ slot. ok (record s { client_takeover = slot }))
        ≡ ok t
      → StagedInRange t
  client_takeover-InRange h =
      let (v, hv, k) = >>=-eq-ok (no_value value) _ {result = t} h in
      let (slot, hs, e) = >>=-eq-ok (set_once s.client_takeover v) _ {result = t} k in
      rw (← ok-injective e) r

  server_window-InRange :
      (ok_or value parameter_arity >>= λ given. parse_bits given >>= λ v.
      set_once s.server_window v >>= λ slot. ok (record s { server_window = slot }))
        ≡ ok t
      → StagedInRange t
  server_window-InRange h =
      let (given, hg, j) = >>=-eq-ok (ok_or value parameter_arity) _ {result = t} h in
      let (v, hv, k) = >>=-eq-ok (parse_bits given) _ {result = t} j in
      let (slot, hs, e) = >>=-eq-ok (set_once s.server_window v) _ {result = t} k in
      let full = set_once-eq-ok s.server_window v hs in
      rw (← ok-injective e, full) (parse_bits-IsWidth given hv, r.1)

  client_window-InRange :
      (window_of value >>= λ v.
      set_once s.client_window v >>= λ slot. ok (record s { client_window = slot }))
        ≡ ok t
      → StagedInRange t
  client_window-InRange h =
      let (v, hv, k) = >>=-eq-ok (window_of value) _ {result = t} h in
      let (slot, hs, e) = >>=-eq-ok (set_once s.client_window v) _ {result = t} k in
      let full = set_once-eq-ok s.client_window v hs in
      rw (← ok-injective e, full) (r.0, window_of-InRange value hv)

  stage-InRange : (key : Bytes) → stage key value s ≡ ok t → StagedInRange t
  unfolding stage
  stage-InRange key h = elim (Bool-cases (bytes_eq key (codes "server_no_context_takeover"))) [
    | inl a ↦ server_takeover-InRange (rw a at h)
    | inr a ↦ elim (Bool-cases (bytes_eq key (codes "client_no_context_takeover"))) [
      | inl b ↦ client_takeover-InRange (rw (a, b) at h)
      | inr b ↦ elim (Bool-cases (bytes_eq key (codes "server_max_window_bits"))) [
        | inl c ↦ server_window-InRange (rw (a, b, c) at h)
        | inr c ↦ elim (Bool-cases (bytes_eq key (codes "client_max_window_bits"))) [
          | inl d ↦ client_window-InRange (rw (a, b, c, d) at h)
          | inr d ↦ cc (rw (a, b, c, d) at h)
        ]
      ]
    ]
  ]

stage_all-InRange :
    (ss : List Bytes) (s : Staged) {t : Staged}
    → StagedInRange s
    → stage_all ss s ≡ ok t
    → StagedInRange t
unfolding stage_all
stage_all-InRange [] s r h = rw (← ok-injective h) r
stage_all-InRange (x ∷ xs) s {t} r h =
    let (next, hn, k) =
      >>=-eq-ok (stage (trim (split_parameter x).0) (split_parameter x).1 s) _ {result = t} h in
    stage_all-InRange xs next
      (stage-InRange (split_parameter x).1 s r (trim (split_parameter x).0) hn) k

to_params-InRange : (s : Staged) → StagedInRange s → ParamsInRange (to_params s)
to_params-InRange s r = (r.0, slot s.client_window r.1)
  where
    slot : (w : Option ClientWindow) → SlotInRange w → ClientWindowInRange (unwrap_or w absent)
    slot none h = tt
    slot (some w) h = h

-- Where `parse_params` returns, each window that it returns a number for is from 8 through 15.
pub parse_params-InRange :
    (element : Bytes) {p : Params} → parse_params element ≡ ok p → ParamsInRange p
unfolding parse_params
parse_params-InRange element {p} h =
    let (parts, hp, k) = >>=-eq-ok (segments element) _ {result = p} h in
    let (s, hs, e) = >>=-eq-ok (stage_all (drop 1 parts) nothing_staged) _ {result = p} k in
    rw (← ok-injective e)
      (to_params-InRange s (stage_all-InRange (drop 1 parts) nothing_staged (tt, tt) hs))
