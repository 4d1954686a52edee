-- ===== src/Grammar/Token.antt =====
-- src/grammar.rs: `is_tchar` and `validate_token`.
use ws_pmd_rs.Base.{
  ℕ, Bool, ◌||◌, not, Bytes, ◌==◌, within, all, is_empty, if◌then◌else◌, Outcome, ok, err,
}
use ws_pmd_rs.Error.{NegotiationError, malformed_header}

unfoldable pub is_tchar : ℕ → Bool
is_tchar byte =
    byte == b'!'
    || within b'#' 39 byte  -- b'\''
    || byte == b'*'
    || byte == b'+'
    || byte == b'-'
    || byte == b'.'
    || within b'0' b'9' byte
    || within b'A' b'Z' byte
    || within b'^' b'z' byte
    || byte == b'|'
    || byte == b'~'

unfoldable pub validate_token : Bytes → Outcome NegotiationError (Unit {0})
unfolding is_tchar
validate_token value =
    if is_empty value || not (all is_tchar value) then err malformed_header else ok tt
