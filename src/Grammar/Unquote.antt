-- ===== src/Grammar/Unquote.antt =====
-- src/grammar.rs: `unquote`.
pub mod Correct
use ws_pmd_rs.Base.{[], ◌∷◌, ◌++◌, Bytes, ◌==◌, any, if◌then◌else◌, Outcome, ok, err}
use ws_pmd_rs.Error.{NegotiationError, malformed_header}

-- The `while let` loop, over the bytes that the iterator has left.
unfoldable pub unquote_loop : Bytes → Bytes → Outcome NegotiationError Bytes
unquote_loop output [] = err malformed_header
unquote_loop output (byte ∷ []) =
    if byte == b'\\'
    then err malformed_header
    else if byte == b'"'
    then ok output
    else err malformed_header
unquote_loop output (byte ∷ next ∷ rest) =
    let escaped = unquote_loop (output ++ next ∷ []) rest in
    let plain = unquote_loop (output ++ byte ∷ []) (next ∷ rest) in
    if byte == b'\\' then escaped else if byte == b'"' then err malformed_header else plain

-- `strip_prefix(b"\"")`, and the two ways on
unfoldable pub unquote : Bytes → Outcome NegotiationError Bytes
unfolding unquote_loop
unquote [] = ok []
unquote (byte ∷ rest) =
    if byte == b'"'
    then unquote_loop [] rest
    else if any (λ c. c == b'"') (byte ∷ rest)
    then err malformed_header
    else ok (byte ∷ rest)
