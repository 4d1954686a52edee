-- ===== src/Http.antt =====
-- The `http` crate, as far as the program uses it: a parameter of the model.
use ws_pmd_rs.Base.{
  ℕ, ◌≡◌, Option, some, List, [], ◌∷◌, ◌++◌, map, map-append, ap, ◌∙◌, Bytes, All, ◌≤◌,
}

-- What `HeaderValue::from_str` accepts: visible ASCII, which the program stays inside.
abbrev pub IsVisible : ℕ → Type 0
IsVisible c = (32 ≤ c) × (c ≤ 126)

-- `HeaderMap` restricted to the field `Sec-WebSocket-Extensions`, and `HeaderValue`.
pub record Http : Type 1 where
  pub HeaderMap : Type 0
  pub HeaderValue : Type 0
  -- `HeaderValue::as_bytes`
  pub as_bytes : HeaderValue → Bytes
  -- `HeaderValue::from_str`
  pub from_str : Bytes → Option HeaderValue
  -- `headers.get_all(SEC_WEBSOCKET_EXTENSIONS)`, in order
  pub get_all : HeaderMap → List HeaderValue
  -- `headers.append(SEC_WEBSOCKET_EXTENSIONS, value)`
  pub append : HeaderMap → HeaderValue → HeaderMap
  pub get_all-append :
      (h : HeaderMap) (v : HeaderValue) → get_all (append h v) ≡ get_all h ++ v ∷ []
  pub from_str-visible :
      (b : Bytes) → All IsVisible b → (v : HeaderValue) × (from_str b ≡ some v) × (as_bytes v ≡ b)

-- The bytes of the field lines.
abbrev pub lines : (H : Http) → H.HeaderMap → List Bytes
lines H h = map H.as_bytes (H.get_all h)

pub lines-append :
    (H : Http) (headers : H.HeaderMap) (v : H.HeaderValue)
    → lines H (H.append headers v) ≡ lines H headers ++ H.as_bytes v ∷ []
lines-append H headers v =
    ap (map H.as_bytes) (H.get_all-append headers v)
    ∙ map-append H.as_bytes (H.get_all headers) (v ∷ [])
