-- ===== src/Grammar/Running.antt =====
-- One name under which every function of the grammar unfolds, for runs on concrete input.
use ws_pmd_rs.Base.{bytes_eq, get_range, is_ascii_whitespace}
use ws_pmd_rs.Grammar.Split.{scan_byte, scan, close, split, elements, segments}
use ws_pmd_rs.Grammar.Trim.{trim_by, trim, is_blank}
use ws_pmd_rs.Grammar.Token.{is_tchar, validate_token}
use ws_pmd_rs.Grammar.Unquote.{unquote_loop, unquote}
use ws_pmd_rs.Grammar.WindowBits.{fold_digits, parse_digits, parse_bits}
use ws_pmd_rs.Grammar.Params.{
  is_deflate, split_parameter, no_value, window_of, stage, stage_all, parse_params,
}
use ws_pmd_rs.Grammar.Validate.{
  validate_value, validate_parameters, validate_segments, validate_element, validate_elements,
  validate_lines, validate,
}

unfoldable pub running : Unit {0}
unfolding bytes_eq get_range is_ascii_whitespace scan_byte scan close split elements segments
    trim_by trim is_blank is_tchar validate_token unquote_loop unquote fold_digits parse_digits
    parse_bits is_deflate split_parameter no_value window_of stage stage_all parse_params
    validate_value validate_parameters validate_segments validate_element validate_elements
    validate_lines validate
running = tt
