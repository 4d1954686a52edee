-- ===== src/Codec/Backend.antt =====
-- `flate2::Decompress`, as far as the decoder uses it: a parameter of the model.
use ws_pmd_rs.Base.{ℕ, ◌≤◌, ◌≡◌, Bool, Option, some, Bytes, length}

pub data Status : Type 0 where
  status_ok buf_error stream_end : Status

pub record Backend : Type 1 where
  pub Decompress : Type 0
  -- `new_with_window_bits`; `none` where its assertion on the width fails
  pub new_with_window_bits : Bool → ℕ → Option Decompress
  pub reset : Decompress → Bool → Decompress
  pub total_in : Decompress → ℕ
  pub total_out : Decompress → ℕ
  -- `decompress(input, scratch, FlushDecompress::None)`: the state and the buffer after the call,
  -- and the status that it returns, `none` for an error
  pub state_after : Decompress → Bytes → Bytes → Decompress
  pub buffer_after : Decompress → Bytes → Bytes → Bytes
  pub status_of : Decompress → Bytes → Bytes → Option Status
  -- A slice keeps its length.
  pub buffer_length :
      (i : Decompress) (input buffer : Bytes) → length (buffer_after i input buffer) ≡ length buffer
  -- The widths that `new_with_window_bits` accepts.
  pub builds :
      (zlib_header : Bool) (bits : ℕ)
      → 9 ≤ bits
      → bits ≤ 15
      → (i : Decompress) × (new_with_window_bits zlib_header bits ≡ some i)
