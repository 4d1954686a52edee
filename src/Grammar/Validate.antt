-- ===== src/Grammar/Validate.antt =====
-- src/grammar.rs: `validate` and `validate_element`.
pub mod Correct
use ws_pmd_rs.Base.{
  Bool, true, false, not, ◌&&◌, [], ◌∷◌, List, Bytes, Option, none, some, if◌then◌else◌, Outcome,
  ok, err, ◌>>=◌, ◌>>◌,
}
use ws_pmd_rs.Error.{NegotiationError, malformed_header}
use ws_pmd_rs.Grammar.Split.{elements, segments}
use ws_pmd_rs.Grammar.Trim.{trim, is_blank}
use ws_pmd_rs.Grammar.Token.{validate_token}
use ws_pmd_rs.Grammar.Unquote.{unquote}
use ws_pmd_rs.Grammar.Params.{split_parameter}

unfoldable pub validate_value : Option Bytes → Outcome NegotiationError (Unit {0})
validate_value none = ok tt
validate_value (some value) = do v ← unquote (trim value); validate_token v

unfoldable pub validate_parameters : List Bytes → Outcome NegotiationError (Unit {0})
validate_parameters [] = ok tt
validate_parameters (parameter ∷ rest) = do
  let (key, value) = split_parameter parameter
  validate_token (trim key)
  validate_value value
  validate_parameters rest

-- `segments.split_first().ok_or(..)?`, and the checks on both halves
unfoldable pub validate_segments : List Bytes → Outcome NegotiationError (Unit {0})
validate_segments [] = err malformed_header
validate_segments (key ∷ parameters) = do validate_token (trim key); validate_parameters parameters

unfoldable pub validate_element : Bytes → Outcome NegotiationError (Unit {0})
validate_element element = do parts ← segments element; validate_segments parts

-- The inner loop, which carries `populated`.
unfoldable pub validate_elements : List Bytes → Bool → Outcome NegotiationError Bool
validate_elements [] populated = ok populated
validate_elements (element ∷ rest) populated =
    let skipped = validate_elements rest populated in
    if is_blank element then skipped else (validate_element element >> validate_elements rest true)

-- The outer loop, which carries `present` and `populated`.
unfoldable pub validate_lines : List Bytes → Bool → Bool → Outcome NegotiationError (Unit {0})
validate_lines [] present populated =
    if present && not populated then err malformed_header else ok tt
validate_lines (value ∷ rest) present populated = do
  es ← elements value
  next ← validate_elements es populated
  validate_lines rest true next

-- `validate`, on the lines of the field
unfoldable pub validate : List Bytes → Outcome NegotiationError (Unit {0})
validate values = validate_lines values false false
