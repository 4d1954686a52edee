-- ===== src/Negotiated/Render/RoundTrip.antt =====
-- Proofs about `render` of src/negotiated.rs and `parse_params` of src/grammar.rs.
use ws_pmd_rs.Base.{
  ℕ, ◌≡◌, refl, ap, ◌∙◌, Bool, true, false, List, [], ◌∷◌, ◌++◌, Bytes, Option, none, some, arith,
  width_cases, ok, ◌>>=◌, drop,
}
use ws_pmd_rs.Grammar.Params.{
  ClientWindow, absent, valueless as window_valueless, bits as window_bits, Params, Staged,
  nothing_staged, stage_all, to_params, parse_params,
}
use ws_pmd_rs.Grammar.Split.{segments}
use ws_pmd_rs.Grammar.Running.{running}
use ws_pmd_rs.Negotiated.Render.{ClientBits, omit, valueless, bits, render_string}
use ws_pmd_rs.Negotiated.Render.Segments.{
  server_takeover_segment, client_takeover_segment, flag_segments, server_segments, client_segments,
  parameter_segments, ServerInRange, ClientInRange, server_bits_segment, client_bits_segment,
}
use ws_pmd_rs.Negotiated.Render.Element.{segments-render_string}

abbrev staged : Option Bool → Option Bool → Option ℕ → Option ClientWindow → Staged
staged a b c d = record {
  server_takeover = a;
  client_takeover = b;
  server_window = c;
  client_window = d;
}

abbrev flag : Bool → Option Bool
flag true = some true
flag false = none

abbrev window_slot : ClientBits → Option ClientWindow
window_slot omit = none
window_slot valueless = some window_valueless
window_slot (bits n) = some (window_bits n)

-- The window that a rendered parameter means.
abbrev pub window_meant : ClientBits → ClientWindow
window_meant omit = absent
window_meant valueless = window_valueless
window_meant (bits n) = window_bits n

-- The parameters that a rendering means.
abbrev pub params_meant : Bool → Bool → Option ℕ → ClientBits → Params
params_meant st ct sb cb = record {
  server_no_context_takeover = st;
  client_no_context_takeover = ct;
  server_max_window_bits = sb;
  client_max_window_bits = window_meant cb;
}

server_takeover-stage :
    (b : Bool) (rest : List Bytes)
    → stage_all (flag_segments b server_takeover_segment ++ rest) nothing_staged
      ≡ stage_all rest (staged (flag b) none none none)
unfolding running
server_takeover-stage true rest = refl
server_takeover-stage false rest = refl

client_takeover-stage :
    (a : Option Bool) (b : Bool) (rest : List Bytes)
    → stage_all (flag_segments b client_takeover_segment ++ rest) (staged a none none none)
      ≡ stage_all rest (staged a (flag b) none none)
unfolding running
client_takeover-stage a true rest = refl
client_takeover-stage a false rest = refl

server_bits-stage :
    (a b : Option Bool) (sb : Option ℕ) (rest : List Bytes)
    → ServerInRange sb
    → stage_all (server_segments sb ++ rest) (staged a b none none)
      ≡ stage_all rest (staged a b sb none)
unfolding running
server_bits-stage a b none rest h = refl
server_bits-stage a b (some n) rest h =
    width_cases
      (λ k.
        stage_all (server_bits_segment k ∷ rest) (staged a b none none)
        ≡ stage_all rest (staged a b (some k) none))
      refl refl refl refl refl refl refl refl n h.0 h.1

client_bits-stage :
    (a b : Option Bool) (c : Option ℕ) (cb : ClientBits)
    → ClientInRange cb
    → stage_all (client_segments cb) (staged a b c none) ≡ ok (staged a b c (window_slot cb))
unfolding running
client_bits-stage a b c omit h = refl
client_bits-stage a b c valueless h = refl
client_bits-stage a b c (bits n) h =
    width_cases
      (λ k.
        stage_all (client_bits_segment k ∷ []) (staged a b c none)
        ≡ ok (staged a b c (some (window_bits k))))
      refl refl refl refl refl refl refl refl n h.0 h.1

stage_all-parameters :
    (st ct : Bool) (sb : Option ℕ) (cb : ClientBits)
    → ServerInRange sb
    → ClientInRange cb
    → stage_all (parameter_segments st ct sb cb) nothing_staged
      ≡ ok (staged (flag st) (flag ct) sb (window_slot cb))
stage_all-parameters st ct sb cb hs hc =
    server_takeover-stage st _
    ∙ client_takeover-stage (flag st) ct _
    ∙ server_bits-stage (flag st) (flag ct) sb _ hs
    ∙ client_bits-stage (flag st) (flag ct) sb cb hc

to_params-staged :
    (st ct : Bool) (sb : Option ℕ) (cb : ClientBits)
    → to_params (staged (flag st) (flag ct) sb (window_slot cb)) ≡ params_meant st ct sb cb
to_params-staged st ct sb cb = ground arith

parse_params_lem :
    (element : Bytes)
    → parse_params element ≡ (
        segments element >>= λ parts.
        stage_all (drop 1 parts) nothing_staged >>= λ staged. ok (to_params staged))
unfolding parse_params
parse_params_lem element = refl

-- Every rendering of widths that the wire allows is read back to the parameters that it means.
pub parse_params-render_string :
    (st ct : Bool) (sb : Option ℕ) (cb : ClientBits)
    → ServerInRange sb
    → ClientInRange cb
    → parse_params (render_string st ct sb cb) ≡ ok (params_meant st ct sb cb)
parse_params-render_string st ct sb cb hs hc =
    rw
      (
        parse_params_lem,
        segments-render_string st ct sb cb hs hc,
        stage_all-parameters st ct sb cb hs hc,
      )
      (ap ok (to_params-staged st ct sb cb))
