-- ===== src/Config/Server.antt =====
-- src/config.rs: `ServerConfig` and its builder.
pub mod Valid
use ws_pmd_rs.Base.{ℕ, Bool, false, Outcome, ok, ◌>>=◌}
use ws_pmd_rs.Error.{ConfigError}
use ws_pmd_rs.Config.Checks.{max_window_bits, check_local, check_peer}

pub record ServerConfig : Type 0 where
  pub server_no_context_takeover : Bool
  pub client_no_context_takeover : Bool
  pub server_max_window_bits : ℕ
  pub client_max_window_bits : ℕ

-- `new`, which is `default`
abbrev pub new : ServerConfig
new = record {
  server_no_context_takeover = false;
  client_no_context_takeover = false;
  server_max_window_bits = max_window_bits;
  client_max_window_bits = max_window_bits;
}

unfoldable pub server_no_context_takeover : ServerConfig → Bool → ServerConfig
server_no_context_takeover c imposed = record c { server_no_context_takeover = imposed }

unfoldable pub client_no_context_takeover : ServerConfig → Bool → ServerConfig
client_no_context_takeover c imposed = record c { client_no_context_takeover = imposed }

unfoldable pub server_max_window_bits : ServerConfig → ℕ → Outcome ConfigError ServerConfig
unfolding check_local
server_max_window_bits c bits = do
  b ← check_local bits
  ok (record c { server_max_window_bits = b })

unfoldable pub client_max_window_bits : ServerConfig → ℕ → Outcome ConfigError ServerConfig
unfolding check_peer
client_max_window_bits c bits = do b ← check_peer bits; ok (record c { client_max_window_bits = b })
