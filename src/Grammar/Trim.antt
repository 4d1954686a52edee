-- ===== src/Grammar/Trim.antt =====
-- src/grammar.rs: `trim` and `is_blank`.
pub mod Strip
pub mod Correct
use ws_pmd_rs.Base.{
  ℕ, suc, Bool, not, [], Bytes, none, some, is_ascii_whitespace, position, rposition, unwrap_or,
  get_range, length, is_empty,
}

-- The body of `trim`, over the test of the bytes to keep.
unfoldable pub trim_by : (ℕ → Bool) → Bytes → Bytes
trim_by keep value =
    let start = unwrap_or (position keep value) (length value) in
    let end : ℕ = elim (rposition keep value) [ none ↦ start | some i ↦ suc i ] in
    unwrap_or (get_range value start end) []

abbrev pub not_whitespace : ℕ → Bool
not_whitespace byte = not (is_ascii_whitespace byte)

unfoldable pub trim : Bytes → Bytes
unfolding trim_by get_range is_ascii_whitespace
trim value = trim_by not_whitespace value

unfoldable pub is_blank : Bytes → Bool
unfolding trim
is_blank element = is_empty (trim element)
