-- ===== src/Tests/Grammar.antt =====
-- The theorems on src/grammar.rs and src/config.rs, at concrete bytes.
use ws_pmd_rs.Base.{
  ◌≡◌, ◌↔◌, ◌≤◌, refl, false, List, [], ◌∷◌, Bytes, codes, u8_to_string, All, some, ok, err,
}
use ws_pmd_rs.Error.{malformed_header}
use ws_pmd_rs.Grammar.Running.{running}
use ws_pmd_rs.Grammar.Split.{split, elements}
use ws_pmd_rs.Grammar.Split.Pieces.{outside, join, IsPiece}
use ws_pmd_rs.Grammar.Split.Loop.{cut_at, split-cut_at}
use ws_pmd_rs.Grammar.Split.Join.{split-join}
use ws_pmd_rs.Grammar.Trim.{not_whitespace, trim}
use ws_pmd_rs.Grammar.Trim.Correct.{IsTrimOf, trim-IsTrimOf}
use ws_pmd_rs.Grammar.Unquote.{unquote}
use ws_pmd_rs.Grammar.Unquote.Correct.{Means, unquote_iff}
use ws_pmd_rs.Grammar.WindowBits.{parse_bits}
use ws_pmd_rs.Grammar.WindowBits.Correct.{parse_bits_iff}
use ws_pmd_rs.Grammar.Params.{parse_params}
use ws_pmd_rs.Grammar.Params.Bounds.{ParamsInRange, parse_params-InRange}
use ws_pmd_rs.Grammar.Validate.{validate}
use ws_pmd_rs.Grammar.Field.{IsField}
use ws_pmd_rs.Grammar.Field.Correct.{validate-IsField}
use ws_pmd_rs.Negotiated.Render.{omit}
use ws_pmd_rs.Negotiated.Render.RoundTrip.{params_meant}
use ws_pmd_rs.Config.Client
use ws_pmd_rs.Config.Client.Valid.{
  IsValid as ClientIsValid, fresh, server_window, built_client-IsValid,
}
use ws_pmd_rs.Config.Server
use ws_pmd_rs.Config.Server.Valid.{
  IsValid as ServerIsValid, fresh as server_fresh, client_window, built_server-IsValid,
}

-- A comma in a quoted string, and one outside.
abbrev quoted_line : Bytes
quoted_line = codes "a; b=\"x,y\", c"

validate-IsField_example : (validate (quoted_line ∷ []) ≡ ok tt) ↔ IsField (quoted_line ∷ [])
validate-IsField_example = validate-IsField (quoted_line ∷ [])

-- A parenthesis stands in no token, and a quoted value is a token too.
with_parenthesis : validate (codes "a(b" ∷ []) ≡ err malformed_header
unfolding running validate
with_parenthesis = refl

with_spaced_value : validate (codes "a; b=\"x y\"" ∷ []) ≡ err malformed_header
unfolding running validate
with_spaced_value = refl

with_blanks : validate (codes ", a ;b = \"c\" ," ∷ []) ≡ ok tt
unfolding running validate
with_blanks = refl

split-cut_at_example : split quoted_line b',' ≡ cut_at b',' outside [] [] quoted_line
split-cut_at_example = split-cut_at quoted_line b','

abbrev quoted_parts : List Bytes
quoted_parts = codes "a; b=\"x,y\"" ∷ codes " c" ∷ []

quoted_line-split : split quoted_line b',' ≡ ok quoted_parts
unfolding running
quoted_line-split = refl

split-join_example : (join b',' quoted_parts ≡ quoted_line) × All (IsPiece b',') quoted_parts
split-join_example = split-join quoted_line b',' quoted_line-split

quoted_line-elements : elements quoted_line ≡ ok quoted_parts
unfolding running
quoted_line-elements = refl

trim-IsTrimOf_example :
    IsTrimOf not_whitespace (codes " a b ") (trim (codes " a b "))
    × ((m : Bytes) → IsTrimOf not_whitespace (codes " a b ") m → m ≡ trim (codes " a b "))
trim-IsTrimOf_example = trim-IsTrimOf (codes " a b ")

unquote_iff_example :
    (unquote (codes "\"1\\0\"") ≡ ok (codes "10")) ↔ Means (codes "\"1\\0\"") (codes "10")
unquote_iff_example = unquote_iff (codes "\"1\\0\"") (codes "10")

parse_bits_iff_example :
    (parse_bits (codes " 10") ≡ ok 10)
    ↔ (Means (trim (codes " 10")) (u8_to_string 10) × (8 ≤ 10) × (10 ≤ 15))
parse_bits_iff_example = parse_bits_iff (codes " 10") 10

abbrev element_10 : Bytes
element_10 = codes "permessage-deflate; server_max_window_bits=10"

element_10-read : parse_params element_10 ≡ ok (params_meant false false (some 10) omit)
unfolding running
element_10-read = refl

parse_params-InRange_example : ParamsInRange (params_meant false false (some 10) omit)
parse_params-InRange_example = parse_params-InRange element_10 element_10-read

abbrev client_built : Client.ClientConfig
client_built = record Client.new { server_max_window_bits = 8 }

built_client-IsValid_example : ClientIsValid client_built
unfolding Client.server_max_window_bits
built_client-IsValid_example = built_client-IsValid (server_window 8 (fresh refl) refl)

abbrev server_built : Server.ServerConfig
server_built = record Server.new { client_max_window_bits = 8 }

built_server-IsValid_example : ServerIsValid server_built
unfolding Server.client_max_window_bits
built_server-IsValid_example = built_server-IsValid (client_window 8 (server_fresh refl) refl)
