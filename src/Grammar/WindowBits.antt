-- ===== src/Grammar/WindowBits.antt =====
-- src/grammar.rs: `parse_bits`.
pub mod Correct
use ws_pmd_rs.Base.{
  ℕ, ◌+◌, ◌-◌, ◌*◌, Bool, ◌&&◌, ◌||◌, false, not, [], ◌∷◌, Bytes, Option, none, some, ◌==◌, leb,
  ltb, within, all, is_empty, length, if◌then◌else◌, Outcome, ok, ok_or, ◌>>=◌, ◌>>◌, guard,
  and_then,
}
use ws_pmd_rs.Error.{NegotiationError, invalid_window_bits}
use ws_pmd_rs.Grammar.Trim.{trim}
use ws_pmd_rs.Grammar.Unquote.{unquote}

abbrev pub is_ascii_digit : ℕ → Bool
is_ascii_digit = within b'0' b'9'

-- `total.checked_mul(10)?.checked_add(digit - b'0')` on `u8`; `digit` is an ASCII digit
abbrev pub push_digit : ℕ → ℕ → Option ℕ
push_digit total digit =
    if leb (total * 10) 255
    then if leb (total * 10 + (digit - 48)) 255 then some (total * 10 + (digit - 48)) else none
    else none

-- The `try_fold` over the digits.
unfoldable pub fold_digits : ℕ → Bytes → Option ℕ
fold_digits total [] = some total
fold_digits total (digit ∷ rest) = and_then (push_digit total digit) (λ next. fold_digits next rest)

-- `digits.first() == Some(&b'0')`
abbrev pub leading_zero : Bytes → Bool
leading_zero [] = false
leading_zero (digit ∷ rest) = digit == b'0'

-- `parse_bits` behind the unquoting.
unfoldable pub parse_digits : Bytes → Outcome NegotiationError ℕ
parse_digits digits = do
  guard (not (is_empty digits || not (all is_ascii_digit digits))) invalid_window_bits
  guard (not (ltb 1 (length digits) && leading_zero digits)) invalid_window_bits
  bits ← ok_or (fold_digits 0 digits) invalid_window_bits
  guard (within 8 15 bits) invalid_window_bits
  ok bits

unfoldable pub parse_bits : Bytes → Outcome NegotiationError ℕ
unfolding trim unquote parse_digits fold_digits
parse_bits value = do digits ← unquote (trim value); parse_digits digits
