-- ===== src/Encoder/Drive/Flushing.antt =====
-- Proofs about `sync_flush` of src/encoder.rs: it ends, and leaves nothing owed.
use ws_pmd_rs.Base.{
  ℕ, zero, suc, ◌+◌, ◌≤◌, ◌<◌, ◌≡◌, ◌≢◌, refl, ap, ◌∙◌, ◌++◌, append-nil, take, false, [], some,
  ltb, ltb→lt, length, Bool-cases, inl, inr, arith, ok, panic,
}
use ws_pmd_rs.Encoder.Backend.{Backend, flush_sync, Status}
use ws_pmd_rs.Encoder.Frame.{framing_margin}
use ws_pmd_rs.Encoder.Bounded.{Bounded}
use ws_pmd_rs.Encoder.Drive.{Work, Ran, spare, drive, sync_flush}
use ws_pmd_rs.Encoder.Drive.Rounds.{written, taken, Drove, drive-Drove, spare-le}
use ws_pmd_rs.Encoder.Drive.Wrote.{Wrote, Wrote-trans, drive-Wrote, drive-took, drive-took_in}

take-nil : (n : ℕ) → take {A = ℕ} n [] ≡ []
take-nil zero = refl
take-nil (suc n) = refl

module _ (B : Backend) (b : Bounded B) where
  pub record Flushed (w : Work B) (r : Ran B (Unit {0})) : Type 0 where
    pub wrote : Wrote B b w r.work b.marker
    pub no_panic : r.answer ≢ panic
    pub took_nothing : B.total_in r.work.compressor ≡ B.total_in w.compressor
    pub kept_in : b.taken_in r.work.compressor ≡ b.taken_in w.compressor
    pub drained : r.answer ≡ ok tt → b.owed r.work.compressor ≡ 0

  module _ (room : ℕ) (w : Work B) where
    abbrev flushed_out : ℕ
    flushed_out = length (written B b w [] flush_sync room)

    flush_paid :
        b.owed (drive B w [] flush_sync room).work.compressor + flushed_out
        ≤ b.owed w.compressor + b.marker
    unfolding drive
    flush_paid = b.pays_flush w.compressor _

    flush_took : B.total_in (drive B w [] flush_sync room).work.compressor ≡ B.total_in w.compressor
    flush_took = omega (
      arith,
      drive-took B b w [] flush_sync room,
      b.consumed-le w.compressor [] (spare B w room) flush_sync,
    )

    drive_drains :
        (k : Status)
        → B.status_of w.compressor [] (spare B w room) flush_sync ≡ some k
        → flushed_out < spare B w room
        → b.owed (drive B w [] flush_sync room).work.compressor ≡ 0
    unfolding drive
    drive_drains k s h = b.drains w.compressor _ k s h

    flush_kept : b.taken_in (drive B w [] flush_sync room).work.compressor ≡ b.taken_in w.compressor
    flush_kept =
        drive-took_in B b w [] flush_sync room
        ∙ ap (λ t. b.taken_in w.compressor ++ t) (take-nil (taken B b w [] flush_sync room))
        ∙ append-nil (b.taken_in w.compressor)

    flush-Wrote : Wrote B b w (drive B w [] flush_sync room).work b.marker
    flush-Wrote = drive-Wrote B b w [] flush_sync room b.marker (omega (arith, flush_paid))

    -- A round that filled its room owes less than before.
    owed_falls :
        framing_margin ≤ room
        → ltb flushed_out (spare B w room) ≡ false
        → b.owed (drive B w [] flush_sync room).work.compressor < b.owed w.compressor
    owed_falls wide full =
        omega (arith, not_below full, flush_paid, b.marker_small, wide, spare-le B w room)
      where
        not_below : ltb flushed_out (spare B w room) ≡ false → spare B w room ≤ flushed_out
        not_below e = ground arith

    Flushed-next :
        {s : Ran B (Unit {0})}
        → b.owed (drive B w [] flush_sync room).work.compressor < b.owed w.compressor
        → Flushed (drive B w [] flush_sync room).work s
        → Flushed w s
    Flushed-next {s} less f = record {
      wrote =
          Wrote-trans B b w (drive B w [] flush_sync room).work s.work b.marker b.marker b.marker
            flush-Wrote f.wrote (omega (arith, f.wrote.owes, less));
      no_panic = f.no_panic;
      took_nothing = f.took_nothing ∙ flush_took;
      kept_in = f.kept_in ∙ flush_kept;
      drained = f.drained;
    }

  -- With a round for every octet that the compressor owes, and one more, `sync_flush` ends, and
  -- where it returns nothing is owed.
  pub sync_flush-Flushed :
      (fuel room : ℕ) (w : Work B)
      → framing_margin ≤ room
      → b.owed w.compressor < fuel
      → (r : Ran B (Unit {0})) × (sync_flush B fuel room w ≡ some r) × Flushed w r
  unfolding sync_flush
  sync_flush-Flushed zero room w wide h = absurd (omega arith)
  sync_flush-Flushed (suc fuel) room w wide h = elim (drive-Drove B b w [] flush_sync room) [
    | Drove.failed e ↦ rw e (
      _,
      refl,
      record {
        wrote = flush-Wrote room w;
        no_panic = λ k. cc;
        took_nothing = flush_took room w;
        kept_in = flush_kept room w;
        drained = λ k. cc;
      },
    )
    | Drove.moved k s e ↦ rw e (elim (Bool-cases (ltb (flushed_out room w) (spare B w room))) [
      | inl below ↦ rw below (
        _,
        refl,
        record {
          wrote = flush-Wrote room w;
          no_panic = λ k. cc;
          took_nothing = flush_took room w;
          kept_in = flush_kept room w;
          drained = λ q. drive_drains room w k s (ltb→lt _ _ below);
        },
      )
      | inr full ↦
          let less = owed_falls room w wide full in
          let (r, ran, f) =
            sync_flush-Flushed fuel room (drive B w [] flush_sync room).work wide
              (omega (arith, less, h)) in
          rw full (r, ran, Flushed-next room w less f)
    ])
  ]
