-- ===== src/Encoder/Bounded.antt =====
-- What the encoder relies on of `flate2::Compress`, beyond its calls: its two counters tell what a
-- call moved, from what it has taken in to what it has put out, a call stays inside the room that
-- it is given, and what a compressor can still write is bounded by what it was given.
use ws_pmd_rs.Base.{ℕ, ◌+◌, ◌*◌, ◌≤◌, ◌<◌, ◌≡◌, [], ◌++◌, Bytes, some, length, take}
use ws_pmd_rs.Encoder.Backend.{Backend, Flush, flush_none, flush_sync, Status}
use ws_pmd_rs.Encoder.Frame.{framing_margin}

pub record Bounded (B : Backend) : Type 0 where
  -- the octets of its input that a call takes in
  pub consumed : B.Compress → Bytes → ℕ → Flush → ℕ
  pub consumed-le :
      (c : B.Compress) (i : Bytes) (room : ℕ) (f : Flush) → consumed c i room f ≤ length i
  pub counts_in :
      (c : B.Compress) (i : Bytes) (room : ℕ) (f : Flush)
      → B.total_in (B.state_after c i room f) ≡ B.total_in c + consumed c i room f
  pub counts_out :
      (c : B.Compress) (i : Bytes) (room : ℕ) (f : Flush)
      → B.total_out (B.state_after c i room f) ≡ B.total_out c + length (B.appended c i room f)
  pub fits_room :
      (c : B.Compress) (i : Bytes) (room : ℕ) (f : Flush) → length (B.appended c i room f) ≤ room
  -- the octets that it has taken in and put out since its history began
  pub taken_in : B.Compress → Bytes
  pub put_out : B.Compress → Bytes
  pub takes_in :
      (c : B.Compress) (i : Bytes) (room : ℕ) (f : Flush)
      → taken_in (B.state_after c i room f) ≡ taken_in c ++ take (consumed c i room f) i
  pub puts_out :
      (c : B.Compress) (i : Bytes) (room : ℕ) (f : Flush)
      → put_out (B.state_after c i room f) ≡ put_out c ++ B.appended c i room f
  -- the width of its window, in bits
  pub window : B.Compress → ℕ
  pub keeps_window :
      (c : B.Compress) (i : Bytes) (room : ℕ) (f : Flush)
      → window (B.state_after c i room f) ≡ window c
  -- the most that it can write with no more input and no flush
  pub owed : B.Compress → ℕ
  -- the most that an octet of input adds to that, and that a sync flush adds
  pub growth : ℕ
  pub marker : ℕ
  pub marker_small : marker < framing_margin
  pub pays :
      (c : B.Compress) (i : Bytes) (room : ℕ)
      → owed (B.state_after c i room flush_none) + length (B.appended c i room flush_none)
        ≤ owed c + growth * consumed c i room flush_none
  pub pays_flush :
      (c : B.Compress) (room : ℕ)
      → owed (B.state_after c [] room flush_sync) + length (B.appended c [] room flush_sync)
        ≤ owed c + marker
  -- A flush that leaves room is complete.
  pub drains :
      (c : B.Compress) (room : ℕ) (s : Status)
      → B.status_of c [] room flush_sync ≡ some s
      → length (B.appended c [] room flush_sync) < room
      → owed (B.state_after c [] room flush_sync) ≡ 0
