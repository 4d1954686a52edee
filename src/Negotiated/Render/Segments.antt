-- ===== src/Negotiated/Render/Segments.antt =====
-- `render_string` of src/negotiated.rs as a name and its parameters, joined by `;`.
use ws_pmd_rs.Base.{
  ℕ, ◌≤◌, ◌≡◌, refl, ap, ◌∙◌, sym, Bool, true, false, not, ◌&&◌, List, [], ◌∷◌, ◌++◌, append-nil,
  append_assoc, Bytes, ◌==◌, within, Option, none, some, codes, u8_to_string, if◌then◌else◌, all,
  All, All-append, width_cases,
}
use ws_pmd_rs.Grammar.Params.{name}
use ws_pmd_rs.Grammar.Split.Pieces.{join}
use ws_pmd_rs.Negotiated.Render.{
  ClientBits, omit, valueless, bits, render_string, push_flag, push_server_bits, push_client_bits,
}

abbrev pub server_takeover_segment : Bytes
server_takeover_segment = codes " server_no_context_takeover"

abbrev pub client_takeover_segment : Bytes
client_takeover_segment = codes " client_no_context_takeover"

abbrev pub server_bits_segment : ℕ → Bytes
server_bits_segment n = codes " server_max_window_bits=" ++ u8_to_string n

abbrev pub client_bits_segment : ℕ → Bytes
client_bits_segment n = codes " client_max_window_bits=" ++ u8_to_string n

abbrev pub valueless_segment : Bytes
valueless_segment = codes " client_max_window_bits"

abbrev pub flag_segments : Bool → Bytes → List Bytes
flag_segments set text = if set then text ∷ [] else []

abbrev pub server_segments : Option ℕ → List Bytes
server_segments none = []
server_segments (some n) = server_bits_segment n ∷ []

abbrev pub client_segments : ClientBits → List Bytes
client_segments omit = []
client_segments valueless = valueless_segment ∷ []
client_segments (bits n) = client_bits_segment n ∷ []

abbrev pub parameter_segments : Bool → Bool → Option ℕ → ClientBits → List Bytes
parameter_segments st ct sb cb =
    flag_segments st server_takeover_segment
    ++ (flag_segments ct client_takeover_segment ++ (server_segments sb ++ client_segments cb))

-- The segments, each behind its `;`.
abbrev chunks : List Bytes → Bytes
chunks [] = []
chunks (s ∷ ss) = b';' ∷ (s ++ chunks ss)

chunks-append : (xs ys : List Bytes) → chunks (xs ++ ys) ≡ chunks xs ++ chunks ys
chunks-append [] ys = refl
chunks-append (x ∷ xs) ys =
    ap (λ t. b';' ∷ (x ++ t)) (chunks-append xs ys)
    ∙ ap (◌∷◌ b';') (sym (append_assoc x (chunks xs) (chunks ys)))

join-chunks : (p : Bytes) (ss : List Bytes) → join b';' (p ∷ ss) ≡ p ++ chunks ss
unfolding join
join-chunks p [] = sym (append-nil p)
join-chunks p (s ∷ ss) = ap (λ t. p ++ (b';' ∷ t)) (join-chunks s ss)

server_takeover-chunks :
    (b : Bool)
    → push_flag b (codes "; server_no_context_takeover")
      ≡ chunks (flag_segments b server_takeover_segment)
server_takeover-chunks true = refl
server_takeover-chunks false = refl

client_takeover-chunks :
    (b : Bool)
    → push_flag b (codes "; client_no_context_takeover")
      ≡ chunks (flag_segments b client_takeover_segment)
client_takeover-chunks true = refl
client_takeover-chunks false = refl

server_bits-chunks : (sb : Option ℕ) → push_server_bits sb ≡ chunks (server_segments sb)
server_bits-chunks none = refl
server_bits-chunks (some n) = rw append-nil

client_bits-chunks : (cb : ClientBits) → push_client_bits cb ≡ chunks (client_segments cb)
client_bits-chunks omit = refl
client_bits-chunks valueless = refl
client_bits-chunks (bits n) = rw append-nil

-- What `render` writes is its segments, joined.
pub render_string-join :
    (st ct : Bool) (sb : Option ℕ) (cb : ClientBits)
    → render_string st ct sb cb ≡ join b';' (name ∷ parameter_segments st ct sb cb)
unfolding render_string
render_string-join st ct sb cb = rw (
  join-chunks,
  chunks-append,
  chunks-append,
  chunks-append,
  server_takeover-chunks st,
  client_takeover-chunks ct,
  server_bits-chunks sb,
  client_bits-chunks cb,
)

-- The widths of a rendering are ones that the wire allows.
abbrev pub InRange : ℕ → Type 0
InRange n = (8 ≤ n) × (n ≤ 15)

abbrev pub ServerInRange : Option ℕ → Type 0
ServerInRange none = Unit
ServerInRange (some n) = InRange n

abbrev pub ClientInRange : ClientBits → Type 0
ClientInRange omit = Unit
ClientInRange valueless = Unit
ClientInRange (bits n) = InRange n

-- Visible ASCII with no quote and none of the two delimiters.
abbrev pub is_clean : ℕ → Bool
is_clean c = within 32 126 c && (not (c == b'"') && (not (c == b',') && not (c == b';')))

abbrev pub AllClean : List Bytes → Type 0
AllClean = All (λ s. all is_clean s ≡ true)

server_takeover-AllClean : (b : Bool) → AllClean (flag_segments b server_takeover_segment)
server_takeover-AllClean true = (refl, tt)
server_takeover-AllClean false = tt

client_takeover-AllClean : (b : Bool) → AllClean (flag_segments b client_takeover_segment)
client_takeover-AllClean true = (refl, tt)
client_takeover-AllClean false = tt

digits-clean : (n : ℕ) → 8 ≤ n → n ≤ 15 → all is_clean (u8_to_string n) ≡ true
digits-clean =
    width_cases (λ n. all is_clean (u8_to_string n) ≡ true) refl refl refl refl refl refl refl refl

server_bits-AllClean : (sb : Option ℕ) → ServerInRange sb → AllClean (server_segments sb)
server_bits-AllClean none h = tt
server_bits-AllClean (some n) h = (digits-clean n h.0 h.1, tt)

client_bits-AllClean : (cb : ClientBits) → ClientInRange cb → AllClean (client_segments cb)
client_bits-AllClean omit h = tt
client_bits-AllClean valueless h = (refl, tt)
client_bits-AllClean (bits n) h = (digits-clean n h.0 h.1, tt)

pub segments-AllClean :
    (st ct : Bool) (sb : Option ℕ) (cb : ClientBits)
    → ServerInRange sb
    → ClientInRange cb
    → AllClean (name ∷ parameter_segments st ct sb cb)
segments-AllClean st ct sb cb hs hc = (
  refl,
  All-append _ (flag_segments st server_takeover_segment) _ (server_takeover-AllClean st) (
      All-append _ (flag_segments ct client_takeover_segment) _ (client_takeover-AllClean ct) (
        All-append _ (server_segments sb) _ (server_bits-AllClean sb hs)
          (client_bits-AllClean cb hc))),
)
