-- ===== src/Encoder/Drive/Feeding.antt =====
-- Proofs about `feed` of src/encoder.rs: it ends, takes in the whole input and only appends.
use native.Mathlib.Nat.{mul-add}
use ws_pmd_rs.Base.{
  ℕ, zero, suc, ◌+◌, ◌-◌, ◌*◌, ◌≤◌, ◌<◌, ◌≡◌, ◌≢◌, refl, ap, ◌∙◌, sym, [], ◌∷◌, Bytes, some, length,
  length-drop, drop, take, take-append-drop, ◌++◌, append-nil, append_assoc, arith, ok, err, panic,
}
use ws_pmd_rs.Error.{CodecError, compression_failed}
use ws_pmd_rs.Encoder.Backend.{Backend, flush_none}
use ws_pmd_rs.Encoder.Bounded.{Bounded}
use ws_pmd_rs.Encoder.Drive.{Work, Ran, spare, drive, fed, feed}
use ws_pmd_rs.Encoder.Drive.Rounds.{written, taken, Drove, drive-Drove, Fed, fed-Fed}
use ws_pmd_rs.Encoder.Drive.Wrote.{
  Wrote, Wrote-trans, Wrote-refl, drive-Wrote, drive-took, drive-took_in,
}

mul-sub_add : (g n k : ℕ) → k ≤ n → g * (n - k) + g * k ≡ g * n
mul-sub_add g n k h =
    let whole : n - k + k ≡ n = omega arith in
    sym (mul-add g (n - k) k) ∙ ap (λ (t : ℕ). g * t) whole

module _ (B : Backend) (b : Bounded B) where
  pub record Ended (w : Work B) (input : Bytes) (r : Ran B (Unit {0})) : Type 0 where
    pub wrote : Wrote B b w r.work (b.growth * length input)
    pub no_panic : r.answer ≢ panic
    pub took_all :
        r.answer ≡ ok tt → B.total_in r.work.compressor ≡ B.total_in w.compressor + length input
    pub took_whole :
        r.answer ≡ ok tt → b.taken_in r.work.compressor ≡ b.taken_in w.compressor ++ input

  drive-paid :
      (w : Work B) (input : Bytes) (room : ℕ)
      → b.owed (drive B w input flush_none room).work.compressor
          + length (written B b w input flush_none room)
        ≤ b.owed w.compressor + b.growth * taken B b w input flush_none room
  unfolding drive
  drive-paid w input room = b.pays w.compressor input _

  -- What a payload may still cost, in rounds.
  abbrev pub cost : B.Compress → ℕ → ℕ
  cost c n = b.owed c + n + b.growth * n

  module _ (room : ℕ) (w : Work B) (input : Bytes) where
    abbrev moved_in : ℕ
    moved_in = taken B b w input flush_none room

    abbrev moved_out : ℕ
    moved_out = length (written B b w input flush_none room)

    taken-le : moved_in ≤ length input
    taken-le = b.consumed-le w.compressor input _ flush_none

    rest_cost : b.growth * (length input - moved_in) + b.growth * moved_in ≡ b.growth * length input
    rest_cost = mul-sub_add b.growth (length input) moved_in taken-le

    cost_falls :
        {fuel : ℕ}
        → 0 < moved_in + moved_out
        → cost w.compressor (length input) < suc fuel
        → cost (drive B w input flush_none room).work.compressor (length (drop moved_in input))
          < fuel
    cost_falls progress h =
        rw (length-drop moved_in input)
          (omega (arith, drive-paid w input room, rest_cost, taken-le, progress, h))

    Ended-next :
        {s : Ran B (Unit {0})}
        → Ended (drive B w input flush_none room).work (drop moved_in input) s
        → Ended w input s
    Ended-next {s} e = record {
      wrote =
          Wrote-trans B b w (drive B w input flush_none room).work s.work (b.growth * moved_in)
            (b.growth * length (drop moved_in input)) (b.growth * length input)
            (drive-Wrote B b w input flush_none room (b.growth * moved_in)
              (omega (arith, drive-paid w input room)))
            e.wrote
            (omega (
              arith,
              ap (λ (t : ℕ). b.growth * t) (length-drop moved_in input),
              rest_cost,
              e.wrote.owes,
              drive-paid w input room,
            ));
      no_panic = e.no_panic;
      took_all = λ k. omega (
        arith,
        e.took_all k,
        drive-took B b w input flush_none room,
        length-drop moved_in input,
        taken-le,
      );
      took_whole = λ k.
          e.took_whole k
          ∙ ap (λ t. t ++ drop moved_in input) (drive-took_in B b w input flush_none room)
          ∙ append_assoc (b.taken_in w.compressor) (take moved_in input) (drop moved_in input)
          ∙ ap (λ t. b.taken_in w.compressor ++ t) (take-append-drop moved_in input);
    }

    Ended-err :
        (e : CodecError)
        → Ended w input (record { work = (drive B w input flush_none room).work; answer = err e })
    Ended-err e = record {
      wrote =
          drive-Wrote B b w input flush_none room (b.growth * length input)
            (omega (arith, drive-paid w input room, rest_cost));
      no_panic = λ k. cc;
      took_all = λ k. cc;
      took_whole = λ k. cc;
    }

  -- With a round for everything that the payload may cost, and one more, `feed` ends.
  pub feed-Ended :
      (fuel room : ℕ) (w : Work B) (input : Bytes)
      → cost w.compressor (length input) < fuel
      → (r : Ran B (Unit {0})) × (feed B fuel room w input ≡ some r) × Ended w input r
  unfolding feed fed
  feed-Ended zero room w input h = absurd (omega arith)
  feed-Ended (suc fuel) room w [] h = (
    record { work = w; answer = ok tt },
    refl,
    record {
      wrote = Wrote-refl B b w _;
      no_panic = λ e. cc;
      took_all = λ e. omega arith;
      took_whole = λ e. sym (append-nil (b.taken_in w.compressor));
    },
  )
  feed-Ended (suc fuel) room w (x ∷ xs) h = elim (drive-Drove B b w (x ∷ xs) flush_none room) [
    | Drove.failed e ↦ rw e (_, refl, Ended-err room w (x ∷ xs) compression_failed)
    | Drove.moved k s e ↦
        rw e
          (elim (fed-Fed B b (x ∷ xs) _ (moved_out room w (x ∷ xs)) (spare B w room)
            (taken-le room w (x ∷ xs))) [
              | Fed.ends y a ↦ rw a (_, refl, Ended-err room w (x ∷ xs) y)
              | Fed.goes_on progress a ↦
                  let (s, ran, ended) =
                    feed-Ended fuel room (drive B w (x ∷ xs) flush_none room).work
                      (drop (moved_in room w (x ∷ xs)) (x ∷ xs))
                      (cost_falls room w (x ∷ xs) progress h) in
                  rw a (s, ran, Ended-next room w (x ∷ xs) ended)
            ])
  ]
