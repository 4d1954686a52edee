-- ===== src/Loopback/Format.antt =====
-- DEFLATE and the two halves of `flate2`, as far as the two ends of a connection rely on them: what
-- an octet sequence stands for, what a call of the inflater does with one, and what the compressor
-- puts out.
use ws_pmd_rs.Base.{ℕ, ◌+◌, ◌≤◌, ◌<◌, ◌≡◌, Bool, false, [], ◌++◌, Bytes, some, length, take}
use ws_pmd_rs.Codec.Backend as Inflate
use ws_pmd_rs.Codec.Numbers.{trailer}
use ws_pmd_rs.Codec.Inflater.{default_inflater_window_bits}
use ws_pmd_rs.Codec.Step.{is_stream_end}
use ws_pmd_rs.Encoder.Backend as Deflate
use ws_pmd_rs.Encoder.Bounded.{Bounded}
use ws_pmd_rs.Encoder.Frame.{empty_message}

pub record Format : Type 1 where
  -- The octets begin a stream, in which no block is the last and no distance leaves a window of so
  -- many bits.
  pub IsStream : ℕ → Bytes → Type 0
  pub IsStream-wider : (w v : ℕ) (xs : Bytes) → w ≤ v → IsStream w xs → IsStream v xs
  -- what they stand for
  pub meaning : Bytes → Bytes
  pub IsStream-front : (w : ℕ) (front back : Bytes) → IsStream w (front ++ back) → IsStream w front
  pub meaning_nil : meaning [] ≡ []
  -- More of a stream stands for more.
  pub meaning-append :
      (w : ℕ) (front back : Bytes)
      → IsStream w (front ++ back)
      → (more : Bytes) × (meaning (front ++ back) ≡ meaning front ++ more)
  -- The octets are whole blocks, on a boundary of octets.
  pub IsBlocks : Bytes → Type 0
  -- The trailer alone is not: there it begins a stored block of 65280 octets, which are still to
  -- come.
  pub trailer_alone : ¬ IsBlocks trailer

module _ (F : Format) where
  module _ (D : Inflate.Backend) where
    -- A call of the inflater on more of a stream, where `left` is what it has still to put out.
    pub record Called (fed given : D.Decompress → Bytes) (window : D.Decompress → ℕ)
        (i : D.Decompress) (input buffer left : Bytes) : Type 0 where
      pub took : ℕ
      pub took-le : took ≤ length input
      pub put : Bytes
      pub put-le : length put ≤ length buffer
      pub still : Bytes
      pub left_split : left ≡ put ++ still
      pub counts_in : D.total_in (D.state_after i input buffer) ≡ D.total_in i + took
      pub counts_out : D.total_out (D.state_after i input buffer) ≡ D.total_out i + length put
      pub buffered : take (length put) (D.buffer_after i input buffer) ≡ put
      pub fed_after : fed (D.state_after i input buffer) ≡ fed i ++ take took input
      pub given_after : given (D.state_after i input buffer) ≡ given i ++ put
      pub same_window : window (D.state_after i input buffer) ≡ window i
      pub status : Inflate.Status
      pub answered : D.status_of i input buffer ≡ some status
      pub not_ended : is_stream_end status ≡ false
      -- Where room is left, all the input is in and all that it stands for is out.
      pub took_all : length put < length buffer → took ≡ length input
      pub put_all : length put < length buffer → still ≡ []

    pub record Inflates : Type 0 where
      -- the octets that it has taken in and put out since its stream began
      pub fed : D.Decompress → Bytes
      pub given : D.Decompress → Bytes
      -- the width of its window, in bits
      pub window : D.Decompress → ℕ
      pub fresh :
          (zlib_header : Bool) (bits : ℕ) (i : D.Decompress)
          → D.new_with_window_bits zlib_header bits ≡ some i
          → (fed i ≡ []) × (given i ≡ []) × (window i ≡ bits)
      pub restarted :
          (i : D.Decompress) (zlib_header : Bool)
          → (fed (D.reset i zlib_header) ≡ [])
            × (given (D.reset i zlib_header) ≡ [])
            -- whatever it was built at
            × (window (D.reset i zlib_header) ≡ default_inflater_window_bits)
      pub calls :
          (i : D.Decompress) (input buffer left : Bytes)
          → 0 < length buffer
          → F.IsStream (window i) (fed i ++ input)
          → F.meaning (fed i ++ input) ≡ given i ++ left
          → Called fed given window i input buffer left

  module _ (E : Deflate.Backend) (b : Bounded E) where
    pub record Deflates : Type 0 where
      pub fresh :
          (level bits : ℕ)
          → (b.taken_in (E.new_with_window_bits level false bits) ≡ [])
            × (b.put_out (E.new_with_window_bits level false bits) ≡ [])
            × (b.owed (E.new_with_window_bits level false bits) ≡ 0)
            × (b.window (E.new_with_window_bits level false bits) ≡ bits)
      pub restarted :
          (c : E.Compress)
          → (b.taken_in (E.reset c) ≡ [])
            × (b.put_out (E.reset c) ≡ [])
            × (b.owed (E.reset c) ≡ 0)
            × (b.window (E.reset c) ≡ b.window c)
      -- Where nothing is owed, what was put out is whole blocks and stands for what was taken in.
      pub flushed :
          (c : E.Compress)
          → b.owed c ≡ 0
          → F.IsStream (b.window c) (b.put_out c)
            × (F.meaning (b.put_out c) ≡ b.taken_in c)
            × F.IsBlocks (b.put_out c)
      -- What follows there may be a stream of its own, which refers to nothing before it.
      pub anew :
          (c : E.Compress) (more : Bytes)
          → b.owed c ≡ 0
          → F.IsStream (b.window c) more
          → F.IsStream (b.window c) (b.put_out c ++ more)
            × (F.meaning (b.put_out c ++ more) ≡ b.taken_in c ++ F.meaning more)
      -- An empty block there changes nothing.
      pub empty_block :
          (c : E.Compress) (more : Bytes)
          → b.owed c ≡ 0
          → F.IsStream (b.window c) (b.put_out c ++ more)
          → F.IsStream (b.window c) (b.put_out c ++ ((empty_message ++ trailer) ++ more))
            × (F.meaning (b.put_out c ++ ((empty_message ++ trailer) ++ more))
                ≡ F.meaning (b.put_out c ++ more))
