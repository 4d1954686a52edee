-- ===== src/Client/Scan.antt =====
-- src/client.rs: the loops over the field, in `seal`, `contains_deflate` and `sole_deflate`.
pub mod Correct
pub mod Contains
pub mod Sole
use ws_pmd_rs.Base.{
  ℕ, ◌+◌, Bool, true, false, not, ◌||◌, [], ◌∷◌, List, Bytes, Option, none, some, bytes_eq,
  if◌then◌else◌, Outcome, ok, err, ◌>>=◌, ◌>>◌, guard,
}
use ws_pmd_rs.Error.{NegotiationError, duplicate_extension}
use ws_pmd_rs.Grammar.Split.{elements}
use ws_pmd_rs.Grammar.Trim.{trim, is_blank}
use ws_pmd_rs.Grammar.Params.{Params, is_deflate, parse_params}

-- The inner loop of `contains_deflate`; `true` is the early return.
unfoldable pub contains_in : List Bytes → Outcome NegotiationError Bool
contains_in [] = ok false
contains_in (element ∷ rest) = do d ← is_deflate element; if d then ok true else contains_in rest

unfoldable pub contains_deflate : List Bytes → Outcome NegotiationError Bool
contains_deflate [] = ok false
contains_deflate (line ∷ rest) = do
  es ← elements line
  found ← contains_in es
  if found then ok true else contains_deflate rest

-- The loops of `seal`, and of the server's `finish`, which carry `found`; `altered` is the error of
-- the caller.
unfoldable pub count_in : NegotiationError → Bytes → List Bytes → ℕ → Outcome NegotiationError ℕ
count_in altered written [] found = ok found
count_in altered written (element ∷ rest) found = do
  d ← is_deflate element
  guard (not d || bytes_eq (trim element) written) altered
  count_in altered written rest (if d then found + 1 else found)

unfoldable pub count_written :
    NegotiationError → Bytes → List Bytes → ℕ → Outcome NegotiationError ℕ
count_written altered written [] found = ok found
count_written altered written (line ∷ rest) found = do
  es ← elements line
  next ← count_in altered written es found
  count_written altered written rest next

-- `selected.replace(..)`, refused where something was selected
abbrev pub select_once : Option Params → Params → Outcome NegotiationError (Option Params)
select_once none p = ok (some p)
select_once (some old) p = err duplicate_extension

-- `is_blank(element) || !is_deflate(element)?`, negated
unfoldable pub is_candidate : Bytes → Outcome NegotiationError Bool
is_candidate element = if is_blank element then ok false else is_deflate element

-- The loops of `sole_deflate`, which carry `selected`.
unfoldable pub sole_in : List Bytes → Option Params → Outcome NegotiationError (Option Params)
sole_in [] selected = ok selected
sole_in (element ∷ rest) selected = do
  candidate ← is_candidate element
  next ← if candidate then (do p ← parse_params element; select_once selected p) else ok selected
  sole_in rest next

unfoldable pub sole_deflate : List Bytes → Option Params → Outcome NegotiationError (Option Params)
sole_deflate [] selected = ok selected
sole_deflate (line ∷ rest) selected = do
  es ← elements line
  next ← sole_in es selected
  sole_deflate rest next
