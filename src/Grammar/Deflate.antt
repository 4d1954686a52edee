-- ===== src/Grammar/Deflate.antt =====
-- The `permessage-deflate` elements of a whole field, in order: what the scans of src/client.rs
-- and src/server.rs are specified by.
pub mod Append
use ws_pmd_rs.Base.{
  ◌≡◌, refl, ap, ◌∙◌, Bool, true, false, List, [], ◌∷◌, ◌++◌, Bytes, if◌then◌else◌, Outcome, ok,
  ◌>>=◌,
}
use ws_pmd_rs.Error.{NegotiationError}
use ws_pmd_rs.Grammar.Split.{elements}
use ws_pmd_rs.Grammar.Params.{is_deflate}

-- Those among the elements of one line.
unfoldable pub deflate_in : List Bytes → Outcome NegotiationError (List Bytes)
deflate_in [] = ok []
deflate_in (element ∷ rest) = do
  d ← is_deflate element
  found ← deflate_in rest
  ok (if d then element ∷ found else found)

-- Those of all lines.
unfoldable pub deflate_elements : List Bytes → Outcome NegotiationError (List Bytes)
deflate_elements [] = ok []
deflate_elements (line ∷ rest) = do
  es ← elements line
  found ← deflate_in es
  later ← deflate_elements rest
  ok (found ++ later)
