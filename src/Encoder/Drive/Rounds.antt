-- ===== src/Encoder/Drive/Rounds.antt =====
-- Proofs about one round of `drive` in src/encoder.rs.
use ws_pmd_rs.Base.{
  ℕ, ◌+◌, ◌-◌, ◌≤◌, ◌<◌, ◌≡◌, inl, inr, refl, ap, ◌∙◌, ◌&&◌, Bytes, Option, none, some, ◌==◌, leb,
  le→leb, length, drop, if◌then◌else◌, Bool-cases, arith, Outcome, ok, err,
}
use ws_pmd_rs.Error.{CodecError, compression_failed, stalled}
use ws_pmd_rs.Codec.Numbers.{usize_max}
use ws_pmd_rs.Encoder.Backend.{Backend, Flush, Status, status_ok, buf_error, stream_end}
use ws_pmd_rs.Encoder.Frame.{room_for, framing_margin}
use ws_pmd_rs.Encoder.Bounded.{Bounded}
use ws_pmd_rs.Encoder.Drive.{Round, measure, Work, drive, spare, fed}

-- What the checks behind a call answer.
data Measured (s : Option Status) (r : Round) (a : Outcome CodecError Round) : Type 0 where
  moved : (k : Status) → s ≡ some k → a ≡ ok r → Measured s r a
  failed : a ≡ err compression_failed → Measured s r a

checked :
    (k : Status) (consumed produced room : ℕ)
    → Measured
        (some k)
        (record { consumed = consumed; produced = produced; room = room })
        (if leb consumed usize_max
          then ok (record { consumed = consumed; produced = produced; room = room })
          else err compression_failed)
checked k consumed produced room = elim (Bool-cases (leb consumed usize_max)) [
  | inl e ↦ rw e (moved k refl refl)
  | inr e ↦ rw e (failed refl)
]

measure-Measured :
    (s : Option Status) (consumed produced room : ℕ)
    → Measured s
        (record { consumed = consumed; produced = produced; room = room })
        (measure s consumed produced room)
unfolding measure
measure-Measured none c p r = failed refl
measure-Measured (some stream_end) c p r = failed refl
measure-Measured (some status_ok) c p r = checked status_ok c p r
measure-Measured (some buf_error) c p r = checked buf_error c p r

module _ (B : Backend) (b : Bounded B) where
  -- What a round writes and takes.
  abbrev pub written : Work B → Bytes → Flush → ℕ → Bytes
  written w input flush room = B.appended w.compressor input (spare B w room) flush

  abbrev pub taken : Work B → Bytes → Flush → ℕ → ℕ
  taken w input flush room = b.consumed w.compressor input (spare B w room) flush

  pub data Drove (w : Work B) (input : Bytes) (flush : Flush) (room : ℕ)
      (a : Outcome CodecError Round) : Type 0 where
    moved :
        (k : Status)
        → B.status_of w.compressor input (spare B w room) flush ≡ some k
        → a
          ≡ ok (record {
            consumed = taken w input flush room;
            produced = length (written w input flush room);
            room = spare B w room;
          })
        → Drove w input flush room a
    failed : a ≡ err compression_failed → Drove w input flush room a

  pub drive-Drove :
      (w : Work B) (input : Bytes) (flush : Flush) (room : ℕ)
      → Drove w input flush room (drive B w input flush room).answer
  unfolding drive
  drive-Drove w input flush room = by (
      measure-Measured (B.status_of w.compressor input (spare B w room) flush) _ _ (spare B w room))
    where
      in_counted :
          B.total_in (drive B w input flush room).work.compressor - B.total_in w.compressor
          ≡ taken w input flush room
      in_counted = omega (arith, b.counts_in w.compressor input (spare B w room) flush)

      out_counted :
          B.total_out (drive B w input flush room).work.compressor - B.total_out w.compressor
          ≡ length (written w input flush room)
      out_counted = omega (arith, b.counts_out w.compressor input (spare B w room) flush)

      by :
          Measured
            (B.status_of w.compressor input (spare B w room) flush)
            (record {
              consumed =
                  B.total_in (drive B w input flush room).work.compressor - B.total_in w.compressor;
              produced =
                  B.total_out (drive B w input flush room).work.compressor
                  - B.total_out w.compressor;
              room = spare B w room;
            })
            (drive B w input flush room).answer
          → Drove w input flush room (drive B w input flush room).answer
      by (Measured.moved k s e) = Drove.moved k s (e ∙ ap ok (rw (in_counted, out_counted)))
      by (Measured.failed e) = Drove.failed e

  -- What `feed` makes of a round that moved: it ends, or some input or output moved.
  pub data Fed (input : Bytes) (n p : ℕ) (a : Outcome CodecError Bytes) : Type 0 where
    ends : (e : CodecError) → a ≡ err e → Fed input n p a
    goes_on : 0 < n + p → a ≡ ok (drop n input) → Fed input n p a

  pub fed-Fed :
      (input : Bytes) (n p room : ℕ)
      → n ≤ length input
      → Fed input n p (fed B input (ok (record { consumed = n; produced = p; room = room })))
  unfolding fed
  fed-Fed input n p room fits = elim (Bool-cases ((n == 0) && (p == 0))) [
    | inl e ↦ rw e (ends stalled refl)
    | inr e ↦ rw (e, le→leb n (length input) fits) (goes_on (ground (arith, e)) refl)
  ]

-- Every round has more room than a flush adds.
pub room_for-lt : (n : ℕ) → framing_margin ≤ room_for n
unfolding room_for
room_for-lt n = omega arith

pub spare-le : (B : Backend) (w : Work B) (room : ℕ) → room ≤ spare B w room
spare-le B w room = omega (arith, B.reserves w.capacity (length w.output) room)
