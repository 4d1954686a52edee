-- ===== src/Config/Client.antt =====
-- src/config.rs: `ClientConfig` and its builder.
pub mod Valid
use ws_pmd_rs.Base.{ℕ, Bool, false, Outcome, ok, ◌>>=◌}
use ws_pmd_rs.Error.{ConfigError}
use ws_pmd_rs.Config.Checks.{max_window_bits, check_local, check_peer}

pub record ClientConfig : Type 0 where
  pub server_no_context_takeover : Bool
  pub client_no_context_takeover : Bool
  pub server_max_window_bits : ℕ
  pub client_max_window_bits : ℕ

-- `new`, which is `default`
abbrev pub new : ClientConfig
new = record {
  server_no_context_takeover = false;
  client_no_context_takeover = false;
  server_max_window_bits = max_window_bits;
  client_max_window_bits = max_window_bits;
}

unfoldable pub server_no_context_takeover : ClientConfig → Bool → ClientConfig
server_no_context_takeover c required = record c { server_no_context_takeover = required }

unfoldable pub client_no_context_takeover : ClientConfig → Bool → ClientConfig
client_no_context_takeover c offered = record c { client_no_context_takeover = offered }

unfoldable pub server_max_window_bits : ClientConfig → ℕ → Outcome ConfigError ClientConfig
unfolding check_peer
server_max_window_bits c bits = do b ← check_peer bits; ok (record c { server_max_window_bits = b })

unfoldable pub client_max_window_bits : ClientConfig → ℕ → Outcome ConfigError ClientConfig
unfolding check_local
client_max_window_bits c bits = do
  b ← check_local bits
  ok (record c { client_max_window_bits = b })
