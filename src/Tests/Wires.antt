-- ===== src/Tests/Wires.antt =====
-- A concrete `http`: a field is its values in order, a value is its bytes.
use ws_pmd_rs.Base.{refl, true, false, List, [], ◌∷◌, ◌++◌, Bytes, codes, some}
use ws_pmd_rs.Http.{Http}
use ws_pmd_rs.Config.Client.{ClientConfig}
use ws_pmd_rs.Config.Server.{ServerConfig}
use ws_pmd_rs.Config.Client.Valid.{IsValid as ClientIsValid}
use ws_pmd_rs.Config.Server.Valid.{IsValid as ServerIsValid}
use ws_pmd_rs.Base.{arith}

abbrev pub plain : Http
plain = record {
  HeaderMap = List Bytes;
  HeaderValue = Bytes;
  as_bytes = λ v. v;
  from_str = λ b. some b;
  get_all = λ h. h;
  append = λ h v. h ++ v ∷ [];
  get_all-append = λ h v. refl;
  from_str-visible = λ b h. (b, refl, refl);
}

-- A client that asks for a server window of 12, and a server that supports client windows to 10.
abbrev pub client_12 : ClientConfig
client_12 = record {
  server_no_context_takeover = true;
  client_no_context_takeover = false;
  server_max_window_bits = 12;
  client_max_window_bits = 15;
}

abbrev pub server_10 : ServerConfig
server_10 = record {
  server_no_context_takeover = false;
  client_no_context_takeover = true;
  server_max_window_bits = 15;
  client_max_window_bits = 10;
}

pub client_12-IsValid : ClientIsValid client_12
client_12-IsValid = ground arith

pub server_10-IsValid : ServerIsValid server_10
server_10-IsValid = ground arith

abbrev pub offer_12 : Bytes
offer_12 =
    codes
      "permessage-deflate; server_no_context_takeover; server_max_window_bits=12; client_max_window_bits"

-- A field with another extension.
abbrev pub other : List Bytes
other = codes "x-webkit-deflate-frame; no_context_takeover" ∷ []

abbrev pub server_12 : ServerConfig
server_12 = record {
  server_no_context_takeover = true;
  client_no_context_takeover = false;
  server_max_window_bits = 12;
  client_max_window_bits = 15;
}

pub server_12-IsValid : ServerIsValid server_12
server_12-IsValid = ground arith
