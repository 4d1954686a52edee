-- ===== src/Encoder/Steps/Poisoned.antt =====
-- src/encoder.rs: what a poisoned encoder answers.
use ws_pmd_rs.Base.{ℕ, ◌≡◌, refl, ap, ◌∙◌, sym, Bytes, Option, none, some, some-injective, err}
use ws_pmd_rs.Error.{poisoned}
use ws_pmd_rs.Encoder.Backend.{Backend}
use ws_pmd_rs.Encoder.Transaction.{
  Encoder, free, State, Called, prepare_with, prepare_message, begin_with, begin_streaming_message,
  as_bytes_mut,
}
use ws_pmd_rs.Encoder.Steps.{
  Step, message, begin, next_fragment, last_fragment, commit_message, send_plain, commit_next,
  commit_last, write_bytes, drop, Steps, done, step,
}

module _ (B : Backend) where
  -- The encoder is free, and its compressor is gone.
  pub record IsPoisoned (s : State B) : Type 0 where
    pub nothing_borrows : s.phase ≡ free
    pub taken_away : s.encoder.compressor ≡ none

  pub record Refuses (s : State B) : Type 0 where
    pub is_poisoned : IsPoisoned s
    pub no_message :
        (fuel : ℕ) (payload : Bytes)
        → (r : Called B) × (prepare_message B fuel s.encoder payload ≡ some r)
          × (r.answer ≡ err poisoned)
    pub no_stream : (begin_streaming_message B s.encoder).answer ≡ err poisoned

  IsPoisoned-Refuses : {s : State B} → IsPoisoned s → Refuses s
  unfolding prepare_message begin_streaming_message
  IsPoisoned-Refuses {s} p = record {
    is_poisoned = p;
    no_message = λ fuel payload. refused fuel payload s.encoder.compressor p.taken_away;
    no_stream = no_begin s.encoder.compressor p.taken_away;
  }
    where
      refused :
          (fuel : ℕ) (payload : Bytes) (o : Option B.Compress)
          → o ≡ none
          → (r : Called B) × (prepare_with B fuel s.encoder payload o ≡ some r)
            × (r.answer ≡ err poisoned)
      refused fuel payload none e = (_, refl, refl)
      refused fuel payload (some c) e = cc

      no_begin :
          (o : Option B.Compress) → o ≡ none → (begin_with B s.encoder o).answer ≡ err poisoned
      no_begin none e = refl
      no_begin (some c) e = cc

  message_stays :
      (fuel : ℕ) (e : Encoder B) (payload : Bytes) (o : Option B.Compress) {r : Called B}
      → o ≡ none
      → prepare_with B fuel e payload o ≡ some r
      → IsPoisoned r.state
  message_stays fuel e payload none n h =
      rw (← some-injective h) (record { nothing_borrows = refl; taken_away = refl })
  message_stays fuel e payload (some c) n h = cc

  begin_stays :
      (e : Encoder B) (o : Option B.Compress) → o ≡ none → IsPoisoned (begin_with B e o).state
  begin_stays e none n = record { nothing_borrows = refl; taken_away = refl }
  begin_stays e (some c) n = cc

  Step-IsPoisoned : {s t : State B} → IsPoisoned s → Step B s t → IsPoisoned t
  unfolding prepare_message begin_streaming_message as_bytes_mut
  Step-IsPoisoned {s} {t} q (message fuel payload r p h e) =
      rw e (message_stays fuel s.encoder payload s.encoder.compressor q.taken_away h)
  Step-IsPoisoned {s} {t} q (begin p e) =
      rw e (begin_stays s.encoder s.encoder.compressor q.taken_away)
  Step-IsPoisoned {s} {t} q (next_fragment c fuel payload r p h e) = cc (sym p ∙ q.nothing_borrows)
  Step-IsPoisoned {s} {t} q (last_fragment c fuel payload r p h e) = cc (sym p ∙ q.nothing_borrows)
  Step-IsPoisoned {s} {t} q (commit_message c b p e) = cc (sym p ∙ q.nothing_borrows)
  Step-IsPoisoned {s} {t} q (send_plain c b p e) = cc (sym p ∙ q.nothing_borrows)
  Step-IsPoisoned {s} {t} q (commit_next c b p e) = cc (sym p ∙ q.nothing_borrows)
  Step-IsPoisoned {s} {t} q (commit_last c b p e) = cc (sym p ∙ q.nothing_borrows)
  Step-IsPoisoned {s} {t} q (write_bytes written e) = rw e (record {
    nothing_borrows = ap (λ p. as_bytes_mut B p written) q.nothing_borrows;
    taken_away = q.taken_away;
  })
  Step-IsPoisoned {s} {t} q (drop e) =
      rw e (record { nothing_borrows = refl; taken_away = q.taken_away })

  Steps-IsPoisoned : {s t : State B} → IsPoisoned s → Steps B s t → IsPoisoned t
  Steps-IsPoisoned q (done e) = rw e q
  Steps-IsPoisoned q (step before last) = Step-IsPoisoned (Steps-IsPoisoned q before) last

  -- A poisoned encoder stays one under calls in any order, and answers each of them with the error.
  pub poisoned-Refuses : {s t : State B} → IsPoisoned s → Steps B s t → Refuses t
  poisoned-Refuses q h = IsPoisoned-Refuses (Steps-IsPoisoned q h)
