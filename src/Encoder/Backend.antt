-- ===== src/Encoder/Backend.antt =====
-- `flate2::Compress` and the growth of a `Vec`, as far as the encoder uses them: a parameter of the
-- model.
use ws_pmd_rs.Base.{ℕ, ◌+◌, ◌≤◌, Bool, Option, Bytes}

pub data Flush : Type 0 where
  flush_none flush_sync : Flush

pub data Status : Type 0 where
  status_ok buf_error stream_end : Status

pub record Backend : Type 1 where
  pub Compress : Type 0
  -- `new_with_window_bits(level, zlib_header, bits)`, at a width from 9 through 15
  pub new_with_window_bits : ℕ → Bool → ℕ → Compress
  pub reset : Compress → Compress
  pub total_in : Compress → ℕ
  pub total_out : Compress → ℕ
  -- `compress_vec(input, output, flush)` with so much spare capacity: the state after the call, the
  -- bytes that it appends, and the status, `none` for an error
  pub state_after : Compress → Bytes → ℕ → Flush → Compress
  pub appended : Compress → Bytes → ℕ → Flush → Bytes
  pub status_of : Compress → Bytes → ℕ → Flush → Option Status
  -- The capacity that `reserve` leaves, by the capacity, the length and what is asked for.
  pub reserved : ℕ → ℕ → ℕ → ℕ
  pub reserves : (capacity len room : ℕ) → len + room ≤ reserved capacity len room
