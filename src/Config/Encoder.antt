-- ===== src/Config/Encoder.antt =====
-- src/config.rs: `EncoderConfig`. The level of `flate2::Compression::default()` is an argument.
use ws_pmd_rs.Base.{ℕ, ltb, if◌then◌else◌, Outcome, ok, err}
use ws_pmd_rs.Error.{ConfigError, compression_level as compression_level_error}
use ws_pmd_rs.Config.Checks.{max_compression_level}

pub record EncoderConfig : Type 0 where
  pub level : ℕ

abbrev pub new : ℕ → EncoderConfig
new default_level = record { level = default_level }

unfoldable pub compression_level : EncoderConfig → ℕ → Outcome ConfigError EncoderConfig
compression_level c level =
    if ltb max_compression_level level
    then err compression_level_error
    else ok (record c { level = level })
