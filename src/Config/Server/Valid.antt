-- ===== src/Config/Server/Valid.antt =====
-- Proofs about the builder of `ServerConfig` in src/config.rs.
use ws_pmd_rs.Base.{ℕ, ◌≤◌, ◌≡◌, Bool, arith, ok}
use ws_pmd_rs.Config.Server
use ws_pmd_rs.Config.Server.{ServerConfig}

-- The server's window is one a compressor can be built at, the client's is one the wire can carry.
pub record IsValid (c : ServerConfig) : Type 0 where
  pub server_floor : 9 ≤ c.server_max_window_bits
  pub server_ceiling : c.server_max_window_bits ≤ 15
  pub client_floor : 8 ≤ c.client_max_window_bits
  pub client_ceiling : c.client_max_window_bits ≤ 15

-- The configurations that a chain of builder calls can make.
pub data Built : ServerConfig → Type 0 where
  fresh : {c : ServerConfig} → c ≡ Server.new → Built c
  server_takeover :
      {c d : ServerConfig} (b : Bool)
      → Built c
      → d ≡ Server.server_no_context_takeover c b
      → Built d
  client_takeover :
      {c d : ServerConfig} (b : Bool)
      → Built c
      → d ≡ Server.client_no_context_takeover c b
      → Built d
  server_window :
      {c d : ServerConfig} (bits : ℕ)
      → Built c
      → Server.server_max_window_bits c bits ≡ ok d
      → Built d
  client_window :
      {c d : ServerConfig} (bits : ℕ)
      → Built c
      → Server.client_max_window_bits c bits ≡ ok d
      → Built d

-- Every server configuration that the builder's calls can make, in any order and number, has a
-- server window from 9 through 15 and a client window from 8 through 15.
pub built_server-IsValid : {c : ServerConfig} → Built c → IsValid c
unfolding Server.server_no_context_takeover Server.client_no_context_takeover
    Server.server_max_window_bits Server.client_max_window_bits
built_server-IsValid (fresh e) = ground arith
built_server-IsValid (server_takeover b r e) = ground (arith, built_server-IsValid r)
built_server-IsValid (client_takeover b r e) = ground (arith, built_server-IsValid r)
built_server-IsValid (server_window bits r e) = ground (arith, built_server-IsValid r)
built_server-IsValid (client_window bits r e) = ground (arith, built_server-IsValid r)
