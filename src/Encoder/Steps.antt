-- ===== src/Encoder/Steps.antt =====
-- src/encoder.rs: every order in which a host can call the encoder, as steps of one state.
pub mod Poisoned
use ws_pmd_rs.Base.{
  ℕ, ◌≡◌, refl, ap, ◌∙◌, sym, Bytes, Option, none, some, some-injective, and_then-eq-some, Outcome,
  ok, err, panic,
}
use ws_pmd_rs.Error.{CodecError, poisoned}
use ws_pmd_rs.Encoder.Backend.{Backend}
use ws_pmd_rs.Encoder.Drive.{produce, produce_non_final}
use ws_pmd_rs.Encoder.Transaction.{
  Encoder, Phase, free, prepared, streaming, fragment, final_fragment, State, Called, hold,
  prepare_with, prepare_message, begin_with, begin_streaming_message, prepare_non_final_fragment,
  prepare_final_fragment, commit, reset_to_plain, commit_fragment, commit_final, as_bytes_mut,
}

module _ (B : Backend) where
  pub data Step (s t : State B) : Type 0 where
    message :
        (fuel : ℕ) (payload : Bytes) (r : Called B)
        → s.phase ≡ free
        → prepare_message B fuel s.encoder payload ≡ some r
        → t ≡ r.state
        → Step s t
    begin : s.phase ≡ free → t ≡ (begin_streaming_message B s.encoder).state → Step s t
    next_fragment :
        (c : B.Compress) (fuel : ℕ) (payload : Bytes) (r : Called B)
        → s.phase ≡ streaming c
        → prepare_non_final_fragment B fuel s.encoder c payload ≡ some r
        → t ≡ r.state
        → Step s t
    last_fragment :
        (c : B.Compress) (fuel : ℕ) (payload : Bytes) (r : Called B)
        → s.phase ≡ streaming c
        → prepare_final_fragment B fuel s.encoder c payload ≡ some r
        → t ≡ r.state
        → Step s t
    commit_message :
        (c : B.Compress) (b : Bytes) → s.phase ≡ prepared c b → t ≡ commit B s.encoder c → Step s t
    send_plain :
        (c : B.Compress) (b : Bytes)
        → s.phase ≡ prepared c b
        → t ≡ reset_to_plain B s.encoder c
        → Step s t
    commit_next :
        (c : B.Compress) (b : Bytes)
        → s.phase ≡ fragment c b
        → t ≡ commit_fragment B s.encoder c
        → Step s t
    commit_last :
        (c : B.Compress) (b : Bytes)
        → s.phase ≡ final_fragment c b
        → t ≡ commit_final B s.encoder c
        → Step s t
    -- The host writes into the bytes that it is to send.
    write_bytes :
        (written : Bytes)
        → t ≡ record { encoder = s.encoder; phase = as_bytes_mut B s.phase written }
        → Step s t
    -- What borrows the encoder is dropped.
    drop : t ≡ record { encoder = s.encoder; phase = free } → Step s t

  pub data Steps : State B → State B → Type 0 where
    done : {s t : State B} → t ≡ s → Steps s t
    step : {s t u : State B} → Steps s t → Step t u → Steps s u

  abbrev pub HeldIn : Phase B → Option B.Compress → Type 0
  HeldIn free o = Unit
  HeldIn (prepared c b) o = o ≡ none
  HeldIn (streaming c) o = o ≡ none
  HeldIn (fragment c b) o = o ≡ none
  HeldIn (final_fragment c b) o = o ≡ none

  -- While something borrows the encoder, the encoder has no compressor of its own.
  abbrev pub Owned : State B → Type 0
  Owned s = HeldIn s.phase s.encoder.compressor

  none-HeldIn : (p : Phase B) {o : Option B.Compress} → o ≡ none → HeldIn p o
  none-HeldIn free h = tt
  none-HeldIn (prepared c b) h = h
  none-HeldIn (streaming c) h = h
  none-HeldIn (fragment c b) h = h
  none-HeldIn (final_fragment c b) h = h

  none-Owned : (s : State B) → s.encoder.compressor ≡ none → Owned s
  none-Owned s h = none-HeldIn s.phase h

  HeldIn-written :
      (p : Phase B) (written : Bytes) (o : Option B.Compress)
      → HeldIn p o
      → HeldIn (as_bytes_mut B p written) o
  unfolding as_bytes_mut
  HeldIn-written free written o h = h
  HeldIn-written (prepared c b) written o h = h
  HeldIn-written (streaming c) written o h = h
  HeldIn-written (fragment c b) written o h = h
  HeldIn-written (final_fragment c b) written o h = h

  pub HeldIn-streaming :
      (p : Phase B) (c : B.Compress) {o : Option B.Compress}
      → p ≡ streaming c
      → HeldIn p o
      → o ≡ none
  HeldIn-streaming p c e h = rw e at h

  HeldIn-fragment :
      (p : Phase B) (c : B.Compress) (b : Bytes) {o : Option B.Compress}
      → p ≡ fragment c b
      → HeldIn p o
      → o ≡ none
  HeldIn-fragment p c b e h = rw e at h

  hold-none :
      (make : B.Compress → Bytes → Phase B) (e : Encoder B) (c : B.Compress)
      (m : Outcome CodecError Bytes)
      → e.compressor ≡ none
      → (hold B make e c m).state.encoder.compressor ≡ none
  hold-none make e c (ok b) h = h
  hold-none make e c (err x) h = h
  hold-none make e c panic h = h

  prepare_with-none :
      (fuel : ℕ) (e : Encoder B) (payload : Bytes) (o : Option B.Compress) {r : Called B}
      → prepare_with B fuel e payload o ≡ some r
      → r.state.encoder.compressor ≡ none
  prepare_with-none fuel e payload none h =
      sym (ap (λ r. r.state.encoder.compressor) (some-injective h))
  prepare_with-none fuel e payload (some c) {r} h =
      let (p, hp, made) = and_then-eq-some (produce B fuel c payload) _ {b = r} h in
      sym (ap (λ r. r.state.encoder.compressor) (some-injective made))
      ∙ hold-none prepared _ p.compressor p.message refl

  begin_with-none :
      (e : Encoder B) (o : Option B.Compress) → (begin_with B e o).state.encoder.compressor ≡ none
  begin_with-none e none = refl
  begin_with-none e (some c) = refl

  Step-Owned : {s t : State B} → Owned s → Step s t → Owned t
  unfolding prepare_message begin_streaming_message prepare_non_final_fragment
      prepare_final_fragment commit reset_to_plain commit_fragment commit_final
  Step-Owned {s} {t} o (message fuel payload r p h e) = none-Owned t (
      ap (λ t. t.encoder.compressor) e
      ∙ prepare_with-none fuel s.encoder payload s.encoder.compressor h)
  Step-Owned {s} {t} o (begin p e) =
      none-Owned t
        (ap (λ t. t.encoder.compressor) e ∙ begin_with-none s.encoder s.encoder.compressor)
  Step-Owned {s} {t} o (next_fragment c fuel payload r p h e) =
      let (q, hq, made) = and_then-eq-some (produce_non_final B fuel c payload) _ {b = r} h in
      none-Owned t (
        ap (λ t. t.encoder.compressor) e
        ∙ sym (ap (λ r. r.state.encoder.compressor) (some-injective made))
        ∙ hold-none fragment s.encoder q.compressor q.message (HeldIn-streaming s.phase c p o))
  Step-Owned {s} {t} o (last_fragment c fuel payload r p h e) =
      let (q, hq, made) = and_then-eq-some (produce B fuel c payload) _ {b = r} h in
      none-Owned t (
        ap (λ t. t.encoder.compressor) e
        ∙ sym (ap (λ r. r.state.encoder.compressor) (some-injective made))
        ∙ hold-none final_fragment s.encoder q.compressor q.message
            (HeldIn-streaming s.phase c p o))
  Step-Owned {s} {t} o (commit_message c b p e) = rw e tt
  Step-Owned {s} {t} o (send_plain c b p e) = rw e tt
  Step-Owned {s} {t} o (commit_next c b p e) = rw e (HeldIn-fragment s.phase c b p o)
  Step-Owned {s} {t} o (commit_last c b p e) = rw e tt
  Step-Owned {s} {t} o (write_bytes written e) =
      rw e (HeldIn-written s.phase written s.encoder.compressor o)
  Step-Owned {s} {t} o (drop e) = rw e tt

  -- In every state that calls in any order lead to, from one in which it holds: while a message or
  -- a fragment borrows the encoder, the encoder itself has no compressor, so that dropping what
  -- borrows it leaves it poisoned.
  pub Steps-Owned : {s t : State B} → Owned s → Steps s t → Owned t
  Steps-Owned o (done e) = rw e o
  Steps-Owned o (step before last) = Step-Owned (Steps-Owned o before) last
