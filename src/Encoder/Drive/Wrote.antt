-- ===== src/Encoder/Drive/Wrote.antt =====
-- Proofs about what the rounds of src/encoder.rs leave behind: a longer output.
use ws_pmd_rs.Base.{
  ℕ, ◌+◌, ◌≤◌, ◌≡◌, refl, ap, ◌∙◌, sym, [], ◌++◌, append-nil, append_assoc, Bytes, length,
  length-append, take, arith,
}
use ws_pmd_rs.Encoder.Backend.{Backend, Flush}
use ws_pmd_rs.Encoder.Bounded.{Bounded}
use ws_pmd_rs.Encoder.Drive.{Work, drive}
use ws_pmd_rs.Encoder.Drive.Rounds.{written, taken}

module _ (B : Backend) (b : Bounded B) where
  -- Between two states of the work the output only grew, by what the counter counts and the
  -- compressor has put out, and the compressor owes no more than that much on top.
  pub record Wrote (w r : Work B) (added : ℕ) : Type 0 where
    pub bytes : Bytes
    pub appended : r.output ≡ w.output ++ bytes
    pub counted : B.total_out r.compressor ≡ B.total_out w.compressor + length bytes
    pub streamed : b.put_out r.compressor ≡ b.put_out w.compressor ++ bytes
    pub same_window : b.window r.compressor ≡ b.window w.compressor
    pub owes : b.owed r.compressor ≤ b.owed w.compressor + added

  pub Wrote-trans :
      (w r s : Work B) (n m k : ℕ)
      → Wrote w r n
      → Wrote r s m
      → b.owed s.compressor ≤ b.owed w.compressor + k
      → Wrote w s k
  Wrote-trans w r s n m k first second bound = record {
    bytes = first.bytes ++ second.bytes;
    appended =
        second.appended
        ∙ ap (λ t. t ++ second.bytes) first.appended
        ∙ append_assoc w.output first.bytes second.bytes;
    counted = omega (arith, first.counted, second.counted, length-append first.bytes second.bytes);
    streamed =
        second.streamed
        ∙ ap (λ t. t ++ second.bytes) first.streamed
        ∙ append_assoc (b.put_out w.compressor) first.bytes second.bytes;
    same_window = second.same_window ∙ first.same_window;
    owes = bound;
  }

  pub Wrote-refl : (w : Work B) (k : ℕ) → Wrote w w k
  Wrote-refl w k = record {
    bytes = [];
    appended = sym (append-nil w.output);
    counted = omega arith;
    streamed = sym (append-nil (b.put_out w.compressor));
    same_window = refl;
    owes = omega arith;
  }

  pub drive-Wrote :
      (w : Work B) (input : Bytes) (flush : Flush) (room k : ℕ)
      → b.owed (drive B w input flush room).work.compressor ≤ b.owed w.compressor + k
      → Wrote w (drive B w input flush room).work k
  unfolding drive
  drive-Wrote w input flush room k h = record {
    bytes = written B b w input flush room;
    appended = refl;
    counted = b.counts_out w.compressor input _ flush;
    streamed = b.puts_out w.compressor input _ flush;
    same_window = b.keeps_window w.compressor input _ flush;
    owes = h;
  }

  pub drive-took :
      (w : Work B) (input : Bytes) (flush : Flush) (room : ℕ)
      → B.total_in (drive B w input flush room).work.compressor
        ≡ B.total_in w.compressor + taken B b w input flush room
  unfolding drive
  drive-took w input flush room = b.counts_in w.compressor input _ flush

  pub drive-took_in :
      (w : Work B) (input : Bytes) (flush : Flush) (room : ℕ)
      → b.taken_in (drive B w input flush room).work.compressor
        ≡ b.taken_in w.compressor ++ take (taken B b w input flush room) input
  unfolding drive
  drive-took_in w input flush room = b.takes_in w.compressor input _ flush
