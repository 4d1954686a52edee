-- ===== src/Config/Checks.antt =====
-- src/config.rs: the constants and the two range checks.
use ws_pmd_rs.Base.{ℕ, within, if◌then◌else◌, Outcome, ok, err}
use ws_pmd_rs.Error.{ConfigError, window_bits, peer_window_bits}

abbrev pub max_window_bits : ℕ
max_window_bits = 15

abbrev pub min_local_window_bits : ℕ
min_local_window_bits = 9

abbrev pub min_wire_window_bits : ℕ
min_wire_window_bits = 8

abbrev pub max_compression_level : ℕ
max_compression_level = 9

unfoldable pub check_local : ℕ → Outcome ConfigError ℕ
check_local bits =
    if within min_local_window_bits max_window_bits bits then ok bits else err window_bits

unfoldable pub check_peer : ℕ → Outcome ConfigError ℕ
check_peer bits =
    if within min_wire_window_bits max_window_bits bits then ok bits else err peer_window_bits
