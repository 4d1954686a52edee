-- ===== src/Fuzz/Fields.antt =====
-- fuzz/: the fields of a fuzz target. What the `http` crate does beyond the library's use of it is
-- a parameter of the model.
pub mod Sealed
pub mod Spelled
use ws_pmd_rs.Base.{
  ℕ, Bool, ◌==◌, ◌≡◌, [], ◌∷◌, List, Bytes, codes, Option, none, some, if◌then◌else◌, expect,
  Outcome, ok, err, panic, ◌>>=◌,
}
use ws_pmd_rs.Error.{NegotiationError, CodecError}
use ws_pmd_rs.Http.{Http}
use ws_pmd_rs.Config.Client as ClientConfig
use ws_pmd_rs.Client.{ClientHandshake, install, seal}

pub record Fields (H : Http) : Type 0 where
  -- `HeaderMap::new`
  pub empty : H.HeaderMap
  pub get_all-empty : H.get_all empty ≡ []
  -- `HeaderValue::from_bytes`
  pub from_bytes : Bytes → Option H.HeaderValue

-- `expect` at a `Result`
abbrev pub expect_ok {ℓ} : {E : Type 0} {A : Type ℓ} → Outcome E A → Outcome CodecError A
expect_ok (ok a) = ok a
expect_ok (err e) = panic
expect_ok panic = panic

abbrev pub cons_first : ℕ → List Bytes → List Bytes
cons_first byte [] = (byte ∷ []) ∷ []
cons_first byte (piece ∷ pieces) = (byte ∷ piece) ∷ pieces

-- `split(|b| *b == 0)`
unfoldable pub split_nul : Bytes → List Bytes
split_nul [] = [] ∷ []
split_nul (byte ∷ rest) =
    let pieces = split_nul rest in if byte == 0 then [] ∷ pieces else cons_first byte pieces

module _ (H : Http) (F : Fields H) where
  -- The loop that appends the lines that are values.
  unfoldable pub append_lines : H.HeaderMap → List Bytes → H.HeaderMap
  append_lines headers [] = headers
  append_lines headers (line ∷ rest) =
      append_lines (elim (F.from_bytes line) [ none ↦ headers | some v ↦ H.append headers v ]) rest

  -- The default offer, installed into an empty request and sealed.
  unfoldable pub sealed_client : Outcome CodecError (ClientHandshake H)
  sealed_client = do
    installed ← expect_ok (install H ClientConfig.new F.empty)
    expect_ok (seal H installed.0 installed.1)

  -- `HeaderValue::from_static("permessage-deflate")`
  abbrev pub bare : Outcome CodecError H.HeaderValue
  bare = expect (H.from_str (codes "permessage-deflate"))
