-- ===== src/Fuzz/Fields/Spelled.antt =====
-- Proofs about the field that the fuzz targets read: the lines that an input spells out.
use ws_pmd_rs.Base.{◌≡◌, false, ◌==◌, [], ◌∷◌, List, Bytes, Option, none, some, All}
use ws_pmd_rs.Http.{Http}
use ws_pmd_rs.Grammar.Split.Pieces.{join}
use ws_pmd_rs.Fuzz.Fields.{Fields}

abbrev pub HasNoNul : Bytes → Type 0
HasNoNul = All (λ b. (b == 0) ≡ false)

abbrev kept {ℓ} : {V : Type ℓ} → Option V → List V → List V
kept none vs = vs
kept (some v) vs = v ∷ vs

-- The values that are made of those of the pieces that can be one.
abbrev pub made {ℓ} : {V : Type ℓ} → (Bytes → Option V) → List Bytes → List V
made f [] = []
made f (p ∷ ps) = kept (f p) (made f ps)

-- What the pieces are: the input cut at each NUL.
pub record Cut (input : Bytes) (pieces : List Bytes) : Type 0 where
  pub first : Bytes
  pub rest : List Bytes
  pub listed : pieces ≡ first ∷ rest
  pub joined : join 0 (first ∷ rest) ≡ input
  pub whole : All HasNoNul (first ∷ rest)
