-- ===== src/Encoder/History/Follows.antt =====
-- Proofs about the history of the compressor of src/encoder.rs, over calls in any order.
use ws_pmd_rs.Base.{
  ℕ, ◌≡◌, refl, ◌∙◌, sym, Bool, true, false, [], ◌∷◌, ◌++◌, List, Bytes, Option, none, some,
  some-injective, and_then-eq-some, if◌then◌else◌, Outcome, ok, err, panic,
}
use ws_pmd_rs.Error.{CodecError}
use ws_pmd_rs.Encoder.Backend.{Backend}
use ws_pmd_rs.Encoder.Drive.{produce, produce_non_final}
use ws_pmd_rs.Encoder.Transaction.{
  Encoder, Phase, free, prepared, streaming, fragment, final_fragment, State, Called, hold,
  as_bytes_mut, prepare_with, prepare_message, begin_with, begin_streaming_message,
  prepare_non_final_fragment, prepare_final_fragment, commit, reset_to_plain, commit_fragment,
  commit_final,
}
use ws_pmd_rs.Encoder.Steps.{
  Step, message, begin, next_fragment, last_fragment, commit_message, send_plain, commit_next,
  commit_last, write_bytes, drop, Steps, done, step, Owned, Steps-Owned, HeldIn, HeldIn-streaming,
}
use ws_pmd_rs.Encoder.History.{
  Chunk, IsFresh, was_reset, Recent, IsFresh-Recent, Recent-after, Log, log_step, log_steps,
  FollowsIn, Follows,
}

module _ (B : Backend) where
  vacant-Follows : (e : Encoder B) (l : Log) → e.compressor ≡ none → FollowsIn B e free l
  vacant-Follows e l n = λ c k. cc (sym n ∙ k)

  hold-Follows :
      (make : B.Compress → Bytes → Phase B) (e : Encoder B) (c : B.Compress)
      (m : Outcome CodecError Bytes) (l : Log)
      → e.compressor ≡ none
      → ((b : Bytes) → m ≡ ok b → FollowsIn B e (make c b) l)
      → Follows B (hold B make e c m).state l
  hold-Follows make e c (ok b) l n f = f b refl
  hold-Follows make e c (err x) l n f = vacant-Follows e l n
  hold-Follows make e c panic l n f = vacant-Follows e l n

  prepare_with-Follows :
      (fuel : ℕ) (e : Encoder B) (payload : Bytes) (o : Option B.Compress) (l : Log) {r : Called B}
      → ((c : B.Compress) → o ≡ some c → Recent B c l.sent)
      → prepare_with B fuel e payload o ≡ some r
      → Follows B r.state (record l { candidate = record { payload = payload; last = true } })
  prepare_with-Follows fuel e payload none l f h = rw (← some-injective h) (λ c k. cc)
  prepare_with-Follows fuel e payload (some c) l {r} f h =
      let (p, hp, made) = and_then-eq-some (produce B fuel c payload) _ {b = r} h in
      let same = some-injective made in
      rw (← same) (
        hold-Follows prepared _ p.compressor p.message _ refl (λ b m.
          Recent-after B fuel c (record { payload = payload; last = true }) p b l.sent (f c refl) hp
            m))

  begin_with-Follows :
      (e : Encoder B) (o : Option B.Compress) (l : Log)
      → ((c : B.Compress) → o ≡ some c → Recent B c l.sent)
      → Follows B (begin_with B e o).state l
  begin_with-Follows e none l f = vacant-Follows _ l refl
  begin_with-Follows e (some c) l f = f c refl

  module _ (e : Encoder B) (ph : Phase B) (l : Log) (c : B.Compress) (b : Bytes)
      (f : FollowsIn B e ph l) where
    at_free : ph ≡ free → FollowsIn B e free l
    at_free p = rw p at f

    at_streaming : ph ≡ streaming c → Recent B c l.sent
    at_streaming p = rw p at f

    at_prepared : ph ≡ prepared c b → Recent B c (l.sent ++ l.candidate ∷ [])
    at_prepared p = rw p at f

    at_fragment : ph ≡ fragment c b → Recent B c (l.sent ++ l.candidate ∷ [])
    at_fragment p = rw p at f

    at_final : ph ≡ final_fragment c b → Recent B c (l.sent ++ l.candidate ∷ [])
    at_final p = rw p at f

  written-Follows :
      (e : Encoder B) (ph : Phase B) (l : Log) (written : Bytes)
      → FollowsIn B e ph l
      → FollowsIn B e (as_bytes_mut B ph written) l
  unfolding as_bytes_mut
  written-Follows e free l written f = f
  written-Follows e (prepared c b) l written f = f
  written-Follows e (streaming c) l written f = f
  written-Follows e (fragment c b) l written f = f
  written-Follows e (final_fragment c b) l written f = f

  dropped-Follows :
      (e : Encoder B) (ph : Phase B) (l : Log)
      → FollowsIn B e ph l
      → HeldIn B ph e.compressor
      → FollowsIn B e free l
  dropped-Follows e free l f h = f
  dropped-Follows e (prepared c b) l f h = vacant-Follows e l h
  dropped-Follows e (streaming c) l f h = vacant-Follows e l h
  dropped-Follows e (fragment c b) l f h = vacant-Follows e l h
  dropped-Follows e (final_fragment c b) l f h = vacant-Follows e l h

  -- The compressor that a commit gives back.
  commit-Synchronised :
      (b : Bool) (c : B.Compress) (sent : List Chunk)
      → Recent B c sent
      → Recent B (if b then B.reset c else c) sent
        × (b ≡ true → IsFresh B (if b then B.reset c else c))
  commit-Synchronised true c sent r =
      (IsFresh-Recent B (B.reset c) sent (was_reset c refl), λ e. was_reset c refl)
  commit-Synchronised false c sent r = (r, λ e. cc)

  commit-Follows :
      (e : Encoder B) (c : B.Compress) (l : Log) → Recent B c l.sent → Follows B (commit B e c) l
  unfolding commit
  commit-Follows e c l r = λ d k.
      let (kept, clean) = commit-Synchronised e.reset_between_messages c l.sent r in
      rw (← some-injective k) (record { recent = kept; clean = clean })

  commit_final-Follows :
      (e : Encoder B) (c : B.Compress) (l : Log)
      → Recent B c l.sent
      → Follows B (commit_final B e c) l
  unfolding commit commit_final
  commit_final-Follows e c l r = commit-Follows e c l r

  plain-Follows : (e : Encoder B) (c : B.Compress) (l : Log) → Follows B (reset_to_plain B e c) l
  unfolding reset_to_plain
  plain-Follows e c l = λ d k. rw (← some-injective k) (record {
    recent = IsFresh-Recent B (B.reset c) l.sent (was_reset c refl);
    clean = λ q. was_reset c refl;
  })

  Step-Follows :
      {s t : State B} (l : Log)
      → Owned B s
      → Follows B s l
      → (h : Step B s t) → Follows B t (log_step B h l)
  unfolding prepare_message begin_streaming_message prepare_non_final_fragment
      prepare_final_fragment commit_fragment
  Step-Follows {s} {t} l o f (message fuel payload r p h e) = rw e (
      prepare_with-Follows fuel s.encoder payload s.encoder.compressor l
        (λ c k. (at_free s.encoder s.phase l c [] f p c k).recent) h)
  Step-Follows {s} {t} l o f (begin p e) = rw e (
      begin_with-Follows s.encoder s.encoder.compressor l
        (λ c k. (at_free s.encoder s.phase l c [] f p c k).recent))
  Step-Follows {s} {t} l o f (next_fragment c fuel payload r p h e) =
      let (q, hq, made) = and_then-eq-some (produce_non_final B fuel c payload) _ {b = r} h in
      rw (e, ← some-injective made)
        (hold-Follows fragment s.encoder q.compressor q.message _ (HeldIn-streaming B s.phase c p o)
          (λ b m.
            Recent-after B fuel c (record { payload = payload; last = false }) q b l.sent
              (at_streaming s.encoder s.phase l c [] f p) hq m))
  Step-Follows {s} {t} l o f (last_fragment c fuel payload r p h e) =
      let (q, hq, made) = and_then-eq-some (produce B fuel c payload) _ {b = r} h in
      rw (e, ← some-injective made)
        (hold-Follows final_fragment s.encoder q.compressor q.message _
          (HeldIn-streaming B s.phase c p o)
          (λ b m.
            Recent-after B fuel c (record { payload = payload; last = true }) q b l.sent
              (at_streaming s.encoder s.phase l c [] f p) hq m))
  Step-Follows {s} {t} l o f (commit_message c b p e) =
      rw e (commit-Follows s.encoder c _ (at_prepared s.encoder s.phase l c b f p))
  Step-Follows {s} {t} l o f (send_plain c b p e) = rw e (plain-Follows s.encoder c l)
  Step-Follows {s} {t} l o f (commit_next c b p e) = rw e (at_fragment s.encoder s.phase l c b f p)
  Step-Follows {s} {t} l o f (commit_last c b p e) =
      rw e (commit_final-Follows s.encoder c _ (at_final s.encoder s.phase l c b f p))
  Step-Follows {s} {t} l o f (write_bytes written e) =
      rw e (written-Follows s.encoder s.phase l written f)
  Step-Follows {s} {t} l o f (drop e) = rw e (dropped-Follows s.encoder s.phase l f o)

  -- todo
  pub Steps-Follows :
      {s t : State B} (l : Log)
      → Owned B s
      → Follows B s l
      → (h : Steps B s t) → Follows B t (log_steps B h l)
  Steps-Follows l o f (done e) = rw e f
  Steps-Follows l o f (step before last) =
      Step-Follows (log_steps B before l) (Steps-Owned B o before) (Steps-Follows l o f before) last
