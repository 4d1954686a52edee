-- ===== src/Negotiated/Render.antt =====
-- src/negotiated.rs: `ClientBits` and `render`.
pub mod Segments
pub mod Element
pub mod RoundTrip
pub mod Ends
pub mod Valid
use ws_pmd_rs.Base.{
  ℕ, Bool, [], ◌++◌, Bytes, Option, none, some, codes, u8_to_string, if◌then◌else◌, Outcome, expect,
}
use ws_pmd_rs.Error.{NegotiationError}
use ws_pmd_rs.Grammar.Params.{name}
use ws_pmd_rs.Http.{Http}

pub data ClientBits : Type 0 where
  omit valueless : ClientBits
  bits : ℕ → ClientBits

abbrev pub push_flag : Bool → Bytes → Bytes
push_flag set text = if set then text else []

abbrev pub push_server_bits : Option ℕ → Bytes
push_server_bits none = []
push_server_bits (some n) = codes "; server_max_window_bits=" ++ u8_to_string n

abbrev pub push_client_bits : ClientBits → Bytes
push_client_bits omit = []
push_client_bits valueless = codes "; client_max_window_bits"
push_client_bits (bits n) = codes "; client_max_window_bits=" ++ u8_to_string n

-- The string that `render` builds.
unfoldable pub render_string : Bool → Bool → Option ℕ → ClientBits → Bytes
render_string server_takeover client_takeover server_bits client_bits =
    name
    ++ (push_flag server_takeover (codes "; server_no_context_takeover")
        ++ (push_flag client_takeover (codes "; client_no_context_takeover")
            ++ (push_server_bits server_bits ++ push_client_bits client_bits)))

-- Its `HeaderValue`: the `expect` is the one panic.
unfoldable pub render :
    (H : Http) → Bool → Bool → Option ℕ → ClientBits → Outcome NegotiationError H.HeaderValue
unfolding render_string
render H server_takeover client_takeover server_bits client_bits =
    expect (H.from_str (render_string server_takeover client_takeover server_bits client_bits))
