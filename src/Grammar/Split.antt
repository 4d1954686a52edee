-- ===== src/Grammar/Split.antt =====
-- src/grammar.rs: `split` and its two callers.
pub mod Pieces
pub mod Loop
pub mod Join
use ws_pmd_rs.Base.{
  ℕ, ◌+◌, Bool, true, false, ◌||◌, List, [], ◌∷◌, ◌++◌, Bytes, ◌==◌, if◌then◌else◌, get_range,
  unwrap_or, length, Outcome, ok, err,
}
use ws_pmd_rs.Error.{NegotiationError, malformed_header}

-- The variables of the loop.
pub record Scan : Type 0 where
  pub parts : List Bytes
  pub start : ℕ
  pub quoted : Bool
  pub escaped : Bool

abbrev pub initial_scan : Scan
initial_scan = record { parts = []; start = 0; quoted = false; escaped = false }

-- The body of the loop, at the byte `value[index]`.
unfoldable pub scan_byte : Bytes → ℕ → ℕ → ℕ → Scan → Scan
scan_byte value delimiter index byte s =
    if s.quoted
    then if s.escaped
      then record s { escaped = false }
      else if byte == b'\\'
      then record s { escaped = true }
      else if byte == b'"'
      then record s { quoted = false }
      else s
    else if byte == b'"'
    then record s { quoted = true }
    else if byte == delimiter
    then record s {
      parts = s.parts ++ unwrap_or (get_range value s.start index) [] ∷ [];
      start = index + 1;
    }
    else s

-- The loop over the bytes that are left, the first of which stands at `index`.
unfoldable pub scan : Bytes → ℕ → ℕ → Bytes → Scan → Scan
unfolding scan_byte
scan value delimiter index [] s = s
scan value delimiter index (byte ∷ rest) s =
    scan value delimiter (index + 1) rest (scan_byte value delimiter index byte s)

-- What follows the loop.
unfoldable pub close : Bytes → Scan → Outcome NegotiationError (List Bytes)
close value s =
    if s.quoted || s.escaped
    then err malformed_header
    else ok (s.parts ++ unwrap_or (get_range value s.start (length value)) [] ∷ [])

unfoldable pub split : Bytes → ℕ → Outcome NegotiationError (List Bytes)
unfolding scan close get_range
split value delimiter = close value (scan value delimiter 0 value initial_scan)

unfoldable pub elements : Bytes → Outcome NegotiationError (List Bytes)
unfolding split
elements value = split value b','

unfoldable pub segments : Bytes → Outcome NegotiationError (List Bytes)
unfolding split
segments element = split element b';'
