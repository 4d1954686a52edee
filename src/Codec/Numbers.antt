-- ===== src/Codec/Numbers.antt =====
-- src/codec.rs: the arithmetic on `usize`, and the constants. A `usize` has 64 bits.
use ws_pmd_rs.Base.{ℕ, ◌+◌, ◌-◌, ◌^◌, ◌∷◌, [], Bytes, leb, min, if◌then◌else◌}

abbrev pub usize_max : ℕ
usize_max = 2 ^ 64 - 1

abbrev pub scratch_length : ℕ
scratch_length = 4096

abbrev pub trailer : Bytes
trailer = 0 ∷ 0 ∷ 255 ∷ 255 ∷ []

abbrev pub saturating_add : ℕ → ℕ → ℕ
saturating_add a b = min (a + b) usize_max

-- `usize::try_from(after.saturating_sub(before)).unwrap_or(buffer_len).min(buffer_len)`
unfoldable pub advance : ℕ → ℕ → ℕ → ℕ
advance before after buffer_len =
    min (if leb (after - before) usize_max then after - before else buffer_len) buffer_len
