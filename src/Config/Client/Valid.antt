-- ===== src/Config/Client/Valid.antt =====
-- Proofs about the builder of `ClientConfig` in src/config.rs.
use ws_pmd_rs.Base.{ℕ, ◌≤◌, ◌≡◌, Bool, arith, ok}
use ws_pmd_rs.Config.Client
use ws_pmd_rs.Config.Client.{ClientConfig}

-- The server's window is one the wire can carry, the client's is one a compressor can be built at.
pub record IsValid (c : ClientConfig) : Type 0 where
  pub server_floor : 8 ≤ c.server_max_window_bits
  pub server_ceiling : c.server_max_window_bits ≤ 15
  pub client_floor : 9 ≤ c.client_max_window_bits
  pub client_ceiling : c.client_max_window_bits ≤ 15

-- The configurations that a chain of builder calls can make.
pub data Built : ClientConfig → Type 0 where
  fresh : {c : ClientConfig} → c ≡ Client.new → Built c
  server_takeover :
      {c d : ClientConfig} (b : Bool)
      → Built c
      → d ≡ Client.server_no_context_takeover c b
      → Built d
  client_takeover :
      {c d : ClientConfig} (b : Bool)
      → Built c
      → d ≡ Client.client_no_context_takeover c b
      → Built d
  server_window :
      {c d : ClientConfig} (bits : ℕ)
      → Built c
      → Client.server_max_window_bits c bits ≡ ok d
      → Built d
  client_window :
      {c d : ClientConfig} (bits : ℕ)
      → Built c
      → Client.client_max_window_bits c bits ≡ ok d
      → Built d

-- Every client configuration that the builder's calls can make, in any order and number, has a
-- server window from 8 through 15 and a client window from 9 through 15.
pub built_client-IsValid : {c : ClientConfig} → Built c → IsValid c
unfolding Client.server_no_context_takeover Client.client_no_context_takeover
    Client.server_max_window_bits Client.client_max_window_bits
built_client-IsValid (fresh e) = ground arith
built_client-IsValid (server_takeover b r e) = ground (arith, built_client-IsValid r)
built_client-IsValid (client_takeover b r e) = ground (arith, built_client-IsValid r)
built_client-IsValid (server_window bits r e) = ground (arith, built_client-IsValid r)
built_client-IsValid (client_window bits r e) = ground (arith, built_client-IsValid r)
