-- ===== src/Codec/Bounded.antt =====
-- Proofs about the loop of `Decoder::inflate` in src/codec.rs.
use ws_pmd_rs.Base.{
  ℕ, zero, suc, ◌+◌, ◌-◌, ◌≤◌, ◌<◌, ◌≡◌, refl, ap, ◌∙◌, Bool, true, false, Bytes, Option, some,
  length, arith, Outcome, ok, err, panic, some-injective,
}
use ws_pmd_rs.Error.{CodecError}
use ws_pmd_rs.Codec.Backend.{Backend}
use ws_pmd_rs.Codec.Numbers.{usize_max}
use ws_pmd_rs.Codec.Inflater.{Decoder}
use ws_pmd_rs.Codec.Inflate.{Loop, Inflated, round, follow, run, started, inflate}
use ws_pmd_rs.Codec.Progress.{Keeps, Keeps-trans, Rounded, round-Rounded}

module _ (B : Backend) (limit : ℕ) (small : limit < usize_max) where
  -- What is left to read and to write.
  abbrev budget : Loop B limit → ℕ
  budget l = length l.input + (limit - (l.decoder.delivered + length l.output))

  budget-Rounded : (l m : Loop B limit) → Rounded B limit l m true → budget m < budget l
  budget-Rounded l m r =
      let fits = r.fits in
      omega (arith, r.shrinks refl, r.moves refl, fits, r.longer, r.keeps.delivered)

  follow-total :
      (again : Loop B limit → Option (Inflated B limit)) (l : Loop B limit)
      (v : Outcome CodecError Bool)
      → (v ≡ ok true → (r : Inflated B limit) × (again l ≡ some r))
      → (r : Inflated B limit) × (follow B limit again l v ≡ some r)
  follow-total again l (ok true) h = h refl
  follow-total again l (ok false) h = (_, refl)
  follow-total again l (err e) h = (_, refl)
  follow-total again l panic h = (_, refl)

  -- Where the fuel is above the budget, the loop returns.
  run-total :
      (fuel : ℕ) (l : Loop B limit)
      → budget l < fuel
      → (r : Inflated B limit) × (run B limit fuel l ≡ some r)
  unfolding run
  run-total zero l h = absurd (omega (arith, h))
  run-total (suc fuel) l h =
      follow-total (run B limit fuel) (round B limit l).after (round B limit l).verdict (λ v.
        run-total fuel (round B limit l).after (
          omega
            (arith, h, budget-Rounded l (round B limit l).after (round-Rounded B limit l small v))))

  -- `inflate` always has fuel enough: it returns, fails or panics, whatever the backend does.
  pub inflate-total :
      (d : Decoder B) (input output : Bytes)
      → (r : Inflated B limit) × (inflate B limit d input output ≡ some r)
  unfolding inflate
  inflate-total d input output =
      run-total (suc (length input + limit)) (started B limit d input output) (omega arith)

  -- What the loop leaves where it does not fail.
  pub record Within (d : Decoder B) (r : Inflated B limit) : Type 0 where
    pub keeps : Keeps B d r.decoder
    pub fits : r.decoder.delivered + length r.output ≤ limit

  Within-after : {d e : Decoder B} {r : Inflated B limit} → Keeps B d e → Within e r → Within d r
  Within-after k w = record { keeps = Keeps-trans B limit k w.keeps; fits = w.fits }

  follow-Within :
      (again : Loop B limit → Option (Inflated B limit)) (l m : Loop B limit)
      (v : Outcome CodecError Bool) {r : Inflated B limit} {b : Bool}
      → ((c : Bool) → v ≡ ok c → Rounded B limit l m c)
      → (again m ≡ some r → Within m.decoder r)
      → follow B limit again m v ≡ some r
      → r.answer ≡ ok b
      → Within l.decoder r
  follow-Within again l m (ok true) rounded ih h a = Within-after (rounded true refl).keeps (ih h)
  follow-Within again l m (ok false) {r} rounded ih h a =
      let q = rounded false refl in
      rw (← some-injective h) (record { keeps = q.keeps; fits = q.fits })
  follow-Within again l m (err e) rounded ih h a = cc (ap (λ r. r.answer) (some-injective h) ∙ a)
  follow-Within again l m panic rounded ih h a = cc (ap (λ r. r.answer) (some-injective h) ∙ a)

  run-Within :
      (fuel : ℕ) (l : Loop B limit) {r : Inflated B limit} {b : Bool}
      → run B limit fuel l ≡ some r
      → r.answer ≡ ok b
      → Within l.decoder r
  unfolding run
  run-Within zero l h a = cc
  run-Within (suc fuel) l h a =
      follow-Within (run B limit fuel) l (round B limit l).after (round B limit l).verdict
        (λ c v. round-Rounded B limit l small v) (λ k. run-Within fuel (round B limit l).after k a)
        h a

  pub inflate-Within :
      (d : Decoder B) (input output : Bytes) {r : Inflated B limit} {b : Bool}
      → inflate B limit d input output ≡ some r
      → r.answer ≡ ok b
      → Within d r
  unfolding inflate
  inflate-Within d input output h a =
      run-Within (suc (length input + limit)) (started B limit d input output) h a
