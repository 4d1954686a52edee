-- ===== src/Grammar/NoPanic/Field.antt =====
-- Proofs about `validate` and `is_deflate` of src/grammar.rs.
use ws_pmd_rs.Base.{
  Bool, true, not, ◌&&◌, ◌||◌, [], ◌∷◌, List, Bytes, Option, none, some, all, is_empty,
}
use ws_pmd_rs.Grammar.Split.{elements, segments}
use ws_pmd_rs.Grammar.Trim.{trim, is_blank}
use ws_pmd_rs.Grammar.Token.{is_tchar, validate_token}
use ws_pmd_rs.Grammar.Unquote.{unquote}
use ws_pmd_rs.Grammar.Params.{is_deflate, split_parameter}
use ws_pmd_rs.Grammar.Validate.{
  validate_value, validate_parameters, validate_segments, validate_element, validate_elements,
  validate_lines, validate,
}
use ws_pmd_rs.Grammar.NoPanic.{
  NoPanic, >>=-NoPanic, if-NoPanic, unquote-NoPanic, segments-NoPanic, elements-NoPanic,
}

pub is_deflate-NoPanic : (e : Bytes) → NoPanic (is_deflate e)
unfolding is_deflate
is_deflate-NoPanic e = >>=-NoPanic (segments e) _ (segments-NoPanic e) (λ parts q. cc)

validate_token-NoPanic : (v : Bytes) → NoPanic (validate_token v)
unfolding validate_token
validate_token-NoPanic v = if-NoPanic (is_empty v || not (all is_tchar v)) (λ q. cc) (λ q. cc)

validate_value-NoPanic : (v : Option Bytes) → NoPanic (validate_value v)
unfolding validate_value
validate_value-NoPanic none = λ q. cc
validate_value-NoPanic (some v) =
    >>=-NoPanic (unquote (trim v)) validate_token (unquote-NoPanic (trim v)) validate_token-NoPanic

validate_parameters-NoPanic : (ps : List Bytes) → NoPanic (validate_parameters ps)
unfolding validate_parameters
validate_parameters-NoPanic [] = λ q. cc
validate_parameters-NoPanic (p ∷ ps) =
    >>=-NoPanic (validate_token (trim (split_parameter p).0)) _
      (validate_token-NoPanic (trim (split_parameter p).0))
      (λ u.
        >>=-NoPanic (validate_value (split_parameter p).1) _
          (validate_value-NoPanic (split_parameter p).1) (λ u. validate_parameters-NoPanic ps))

validate_segments-NoPanic : (ss : List Bytes) → NoPanic (validate_segments ss)
unfolding validate_segments
validate_segments-NoPanic [] = λ q. cc
validate_segments-NoPanic (key ∷ ps) =
    >>=-NoPanic (validate_token (trim key)) _ (validate_token-NoPanic (trim key))
      (λ u. validate_parameters-NoPanic ps)

validate_elements-NoPanic : (es : List Bytes) (p : Bool) → NoPanic (validate_elements es p)
unfolding validate_elements validate_element
validate_elements-NoPanic [] p = λ q. cc
validate_elements-NoPanic (e ∷ es) p = if-NoPanic (is_blank e) (validate_elements-NoPanic es p) (
    >>=-NoPanic (validate_element e) _
      (>>=-NoPanic (segments e) validate_segments (segments-NoPanic e) validate_segments-NoPanic)
      (λ u. validate_elements-NoPanic es true))

validate_lines-NoPanic : (ls : List Bytes) (a b : Bool) → NoPanic (validate_lines ls a b)
unfolding validate_lines
validate_lines-NoPanic [] a b = if-NoPanic (a && not b) (λ q. cc) (λ q. cc)
validate_lines-NoPanic (l ∷ ls) a b = >>=-NoPanic (elements l) _ (elements-NoPanic l) (λ es.
    >>=-NoPanic (validate_elements es b) _ (validate_elements-NoPanic es b)
      (λ n. validate_lines-NoPanic ls true n))

-- `validate` returns or fails, and never panics, on any lines.
pub validate-NoPanic : (ls : List Bytes) → NoPanic (validate ls)
unfolding validate
validate-NoPanic ls = validate_lines-NoPanic ls _ _
