-- ===== src/Negotiated/Render/Valid.antt =====
-- Proofs about `render` of src/negotiated.rs and `validate_element` of src/grammar.rs.
use ws_pmd_rs.Base.{
  ℕ, ◌≡◌, refl, ap, Bool, true, false, List, [], ◌∷◌, ◌++◌, Bytes, Option, none, some, width_cases,
  inr, is_empty, ok, >>=-eq-ok,
}
use ws_pmd_rs.Grammar.Running.{running}
use ws_pmd_rs.Grammar.Trim.{trim, is_blank}
use ws_pmd_rs.Grammar.Params.{name, split_parameter}
use ws_pmd_rs.Grammar.Token.{validate_token}
use ws_pmd_rs.Grammar.Validate.{
  validate_value, validate_parameters, validate_segments, validate_element,
}
use ws_pmd_rs.Grammar.Validate.Correct.{LineIsValid, line_populates}
use ws_pmd_rs.Negotiated.Render.{ClientBits, omit, valueless, bits, render_string}
use ws_pmd_rs.Negotiated.Render.Segments.{
  server_takeover_segment, client_takeover_segment, flag_segments, server_segments, client_segments,
  parameter_segments, ServerInRange, ClientInRange, server_bits_segment, client_bits_segment,
}
use ws_pmd_rs.Negotiated.Render.Element.{segments-render_string, elements-render_string}
use ws_pmd_rs.Negotiated.Render.Ends.{trim-render_string}

-- All are accepted where each part is.
validate_parameters-append :
    (xs ys : List Bytes)
    → validate_parameters xs ≡ ok tt
    → validate_parameters ys ≡ ok tt
    → validate_parameters (xs ++ ys) ≡ ok tt
unfolding validate_parameters
validate_parameters-append [] ys hx hy = hy
validate_parameters-append (x ∷ xs) ys hx hy =
    let (key, value) = split_parameter x in
    let (u, hk, j) = >>=-eq-ok (validate_token (trim key)) _ {result = tt} hx in
    let (w, hv, rest) = >>=-eq-ok (validate_value value) _ {result = tt} j in
    rw (hk, hv) (validate_parameters-append xs ys rest hy)

server_takeover-valid :
    (b : Bool) → validate_parameters (flag_segments b server_takeover_segment) ≡ ok tt
unfolding running
server_takeover-valid true = refl
server_takeover-valid false = refl

client_takeover-valid :
    (b : Bool) → validate_parameters (flag_segments b client_takeover_segment) ≡ ok tt
unfolding running
client_takeover-valid true = refl
client_takeover-valid false = refl

server_bits-valid :
    (sb : Option ℕ) → ServerInRange sb → validate_parameters (server_segments sb) ≡ ok tt
unfolding running
server_bits-valid none h = refl
server_bits-valid (some n) h =
    width_cases (λ k. validate_parameters (server_bits_segment k ∷ []) ≡ ok tt) refl refl refl refl
      refl refl refl refl n h.0 h.1

client_bits-valid :
    (cb : ClientBits) → ClientInRange cb → validate_parameters (client_segments cb) ≡ ok tt
unfolding running
client_bits-valid omit h = refl
client_bits-valid valueless h = refl
client_bits-valid (bits n) h =
    width_cases (λ k. validate_parameters (client_bits_segment k ∷ []) ≡ ok tt) refl refl refl refl
      refl refl refl refl n h.0 h.1

name-valid : validate_token (trim name) ≡ ok tt
unfolding running
name-valid = refl

module _ (st ct : Bool) (sb : Option ℕ) (cb : ClientBits) (hs : ServerInRange sb)
    (hc : ClientInRange cb) where
  parameters-valid : validate_parameters (parameter_segments st ct sb cb) ≡ ok tt
  parameters-valid =
      validate_parameters-append (flag_segments st server_takeover_segment) _
        (server_takeover-valid st)
        (validate_parameters-append (flag_segments ct client_takeover_segment) _
          (client_takeover-valid ct)
          (validate_parameters-append (server_segments sb) _ (server_bits-valid sb hs)
            (client_bits-valid cb hc)))

  -- The grammar accepts every rendering of widths that the wire allows, as an element.
  pub validate_element-render_string : validate_element (render_string st ct sb cb) ≡ ok tt
  unfolding validate_element validate_segments
  validate_element-render_string =
      rw (segments-render_string st ct sb cb hs hc, name-valid, parameters-valid) refl

  is_blank-render_string : is_blank (render_string st ct sb cb) ≡ false
  unfolding is_blank render_string
  is_blank-render_string = ap is_empty (trim-render_string st ct sb cb)

  pub render_string-LineIsValid : LineIsValid (render_string st ct sb cb)
  render_string-LineIsValid = (
    render_string st ct sb cb ∷ [],
    elements-render_string st ct sb cb hs hc,
    (inr validate_element-render_string, tt),
  )

  pub line_populates-render_string : line_populates (render_string st ct sb cb) ≡ true
  line_populates-render_string =
      rw (elements-render_string st ct sb cb hs hc, is_blank-render_string) refl
