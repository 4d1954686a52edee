-- ===== src/Codec/Moves.antt =====
-- Proofs about `step` of src/codec.rs.
use ws_pmd_rs.Base.{
  ℕ, ◌+◌, ◌-◌, ◌≤◌, ◌<◌, ◌≡◌, refl, ap, ◌∙◌, true, not, ◌||◌, Bytes, Option, none, some, ◌==◌,
  length, drop, length-drop, is_empty, slice_from-ok, arith, Bool-cases, inl, inr, ok, ok-injective,
}
use ws_pmd_rs.Codec.Backend.{Backend, Status}
use ws_pmd_rs.Codec.Numbers.{advance}
use ws_pmd_rs.Codec.Step.{Step, judge, consumed_by, produced_by, step}

advance-le : (before after n : ℕ) → advance before after n ≤ n
unfolding advance
advance-le before after n = ground arith

-- A call that moved: what is left of the input, and that it or the output went on.
pub record Moved (input : Bytes) (produced : ℕ) (s : Step) : Type 0 where
  pub same_produced : s.produced ≡ produced
  pub shrinks : (rest : Bytes) → s.remaining ≡ some rest → length rest ≤ length input
  pub moves : (rest : Bytes) → s.remaining ≡ some rest → length rest < length input + produced

judge-Moved :
    (code : Option Status) (consumed produced : ℕ) (input : Bytes) {s : Step}
    → consumed ≤ length input
    → judge code consumed produced input ≡ ok s
    → Moved input produced s
unfolding judge
judge-Moved none consumed produced input c h = cc
judge-Moved (some code) consumed produced input {s} c h =
    let h = rw (slice_from-ok consumed input c) at h in
    elim (Bool-cases (not (consumed == 0) || not (produced == 0))) [
      | inl e ↦
          let made = ok-injective (rw e at h) in
          rw (← made) (record {
            same_produced = refl;
            shrinks = λ rest k. left rest (rest_is rest k);
            moves = λ rest k. ahead rest e (rest_is rest k);
          })
      | inr e ↦ elim (Bool-cases (is_empty (drop consumed input))) [
        | inl z ↦
            let made = ok-injective (rw (e, z) at h) in
            rw (← made)
              (record { same_produced = refl; shrinks = λ rest k. cc; moves = λ rest k. cc })
        | inr z ↦ cc (rw (e, z) at h)
      ]
    ]
  where
    rest_is :
        (rest : Bytes)
        → some (drop consumed input) ≡ some rest
        → length rest ≡ length input - consumed
    rest_is rest k = ap length (some_injective k) ∙ length-drop consumed input
      where
        some_injective : {a b : Bytes} → ◌≡◌ {A = Option Bytes} (some a) (some b) → b ≡ a
        some_injective e = cc

    left : (rest : Bytes) → length rest ≡ length input - consumed → length rest ≤ length input
    left rest k = omega (arith, k)

    ahead :
        (rest : Bytes)
        → (not (consumed == 0) || not (produced == 0)) ≡ true
        → length rest ≡ length input - consumed
        → length rest < length input + produced
    ahead rest e k = ground (arith, c, e, k)

module _ (B : Backend) where
  pub consumed_by-le :
      (i : B.Decompress) (input buffer : Bytes) → consumed_by B i input buffer ≤ length input
  unfolding consumed_by
  consumed_by-le i input buffer =
      advance-le (B.total_in i) (B.total_in (B.state_after i input buffer)) (length input)

  pub produced_by-le :
      (i : B.Decompress) (input buffer : Bytes) → produced_by B i input buffer ≤ length buffer
  unfolding produced_by
  produced_by-le i input buffer =
      advance-le (B.total_out i) (B.total_out (B.state_after i input buffer)) (length buffer)

  pub step-Moved :
      (i : B.Decompress) (input buffer : Bytes) {s : Step}
      → step B i input buffer ≡ ok s
      → Moved input (produced_by B i input buffer) s
  unfolding step
  step-Moved i input buffer h =
      judge-Moved (B.status_of i input buffer) (consumed_by B i input buffer)
        (produced_by B i input buffer) input (consumed_by-le i input buffer) h
