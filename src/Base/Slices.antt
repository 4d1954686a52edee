-- ===== src/Base/Slices.antt =====
-- Slices by a range, which panic where it ends outside of the slice.
use mathlib.Core.Path.{◌≡◌}
use Prim.Native.Nat.{ℕ, ◌≤◌}
use mathlib.Core.List.{List}
use ws_pmd_rs.Base.Tests.{leb, le→leb, if◌then◌else◌, if-true}
use ws_pmd_rs.Base.Lists.{length, take, drop}
use ws_pmd_rs.Base.Results.{Outcome, ok, panic}

-- `xs[..n]`
abbrev pub slice_to {ℓ} : {E : Type 0} {A : Type ℓ} → ℕ → List A → Outcome E (List A)
slice_to n xs = if leb n (length xs) then ok (take n xs) else panic

-- `xs[n..]`
abbrev pub slice_from {ℓ} : {E : Type 0} {A : Type ℓ} → ℕ → List A → Outcome E (List A)
slice_from n xs = if leb n (length xs) then ok (drop n xs) else panic

module _ {ℓ} {E : Type 0} {A : Type ℓ} (n : ℕ) (xs : List A) (h : n ≤ length xs) where
  pub slice_to-ok : slice_to {E = E} n xs ≡ ok (take n xs)
  slice_to-ok = if-true (leb n (length xs)) panic (le→leb n (length xs) h)

  pub slice_from-ok : slice_from {E = E} n xs ≡ ok (drop n xs)
  slice_from-ok = if-true (leb n (length xs)) panic (le→leb n (length xs) h)
