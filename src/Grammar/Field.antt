-- ===== src/Grammar/Field.antt =====
-- The field `Sec-WebSocket-Extensions` by the grammars of RFC 6455 and RFC 2616: what `validate` of
-- src/grammar.rs is to accept. No indices, no loops and no calls of the code.
pub mod Token
pub mod Parameter
pub mod Element
pub mod Correct
use ws_pmd_rs.Base.{
  ℕ, ◌≡◌, ◌⊎◌, Bool, true, false, not, ◌&&◌, List, [], ◌∷◌, ◌++◌, Bytes, ◌==◌, ltb, any, codes, All,
}
use ws_pmd_rs.Grammar.Trim.{not_whitespace}
use ws_pmd_rs.Grammar.Trim.Correct.{IsTrimOf}
use ws_pmd_rs.Grammar.Split.Pieces.{outside, IsBalanced, pieces}
use ws_pmd_rs.Grammar.Unquote.Correct.{Means}

-- The separators of RFC 2616; the tab is one too.
abbrev pub separators : Bytes
separators = 9 ∷ codes "()<>@,;:\\\"/[]?={} "

-- A CHAR, which is neither a CTL nor a separator.
abbrev pub is_token_char : ℕ → Bool
is_token_char c = ltb 31 c && (ltb c 127 && not (any (λ s. c == s) separators))

abbrev pub IsToken : Bytes → Type 0
IsToken [] = ⊥
IsToken (c ∷ cs) = All (λ d. is_token_char d ≡ true) (c ∷ cs)

-- A token between white space.
abbrev pub HoldsToken : Bytes → Type 0
HoldsToken raw = (token : Bytes) × IsTrimOf not_whitespace raw token × IsToken token

abbrev pub HasNoEquals : Bytes → Type 0
HasNoEquals = All (λ c. (c == b'=') ≡ false)

-- `parameter = token [ "=" (token | quoted-string) ]`, where what is quoted is a token as well.
pub data IsParameter (segment : Bytes) : Type 0 where
  bare : HasNoEquals segment → HoldsToken segment → IsParameter segment
  valued :
      (key value trimmed meant : Bytes)
      → segment ≡ key ++ b'=' ∷ value
      → HasNoEquals key
      → HoldsToken key
      → IsTrimOf not_whitespace value trimmed
      → Means trimmed meant
      → IsToken meant
      → IsParameter segment

-- The pieces of a value between the delimiters outside of its quoted strings, all of which are
-- closed.
abbrev pub CutsInto : ℕ → Bytes → List Bytes → Type 0
CutsInto d value parts = IsBalanced value × (parts ≡ pieces d [] outside value)

-- `extension = extension-token *( ";" extension-param )`
abbrev pub IsExtension : Bytes → Type 0
IsExtension element =
    (name : Bytes) × (parameters : List Bytes) × CutsInto b';' element (name ∷ parameters)
    × HoldsToken name
    × All IsParameter parameters

-- White space and no more.
abbrev pub IsEmptyElement : Bytes → Type 0
IsEmptyElement element = IsTrimOf not_whitespace element []

abbrev pub IsLine : Bytes → Type 0
IsLine line =
    (es : List Bytes) × CutsInto b',' line es × All (λ e. IsEmptyElement e ⊎ IsExtension e) es

-- Some line has an element that is an extension.
pub data HasExtension : List Bytes → Type 0 where
  here :
      {line : Bytes} {rest : List Bytes} (front back : List Bytes) (e : Bytes)
      → CutsInto b',' line (front ++ e ∷ back)
      → ¬ IsEmptyElement e
      → HasExtension (line ∷ rest)
  later : {line : Bytes} {rest : List Bytes} → HasExtension rest → HasExtension (line ∷ rest)

-- `extension-list = 1#extension`, over all the lines of the field, which may be none.
abbrev pub IsField : List Bytes → Type 0
IsField lines = All IsLine lines × ((lines ≡ []) ⊎ HasExtension lines)
