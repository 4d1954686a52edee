-- ===== src/Codec/NoPanic.antt =====
-- Proofs about the panics of the decoder of src/codec.rs.
use ws_pmd_rs.Base.{
  ℕ, zero, suc, ◌≤◌, ◌<◌, ◌≡◌, ◌≢◌, refl, ap, ◌∙◌, Bool, true, false, not, ◌||◌, Bytes, Option,
  none, some, some-injective, ◌==◌, ltb, length, take, drop, is_empty, slice_to-ok, slice_from-ok,
  if-arms, Outcome, ok, err, panic, ◌++◌, ◌+◌, ◌>>=◌, expect,
}
use ws_pmd_rs.Error.{CodecError}
use ws_pmd_rs.Codec.Backend.{Backend, Status}
use ws_pmd_rs.Codec.Numbers.{usize_max, saturating_add}
use ws_pmd_rs.Codec.Inflater.{
  InflaterConfig, resets_in_place, build, reinitialise_inflater, Decoder, reinitialise,
}
use ws_pmd_rs.Codec.Step.{Step, judge, consumed_by, produced_by, step}
use ws_pmd_rs.Codec.Inflate.{
  Loop, Round, Inflated, note_stream, go_on, extend, take_in, called, round, follow, run, started,
  inflate,
}
use ws_pmd_rs.Codec.Moves.{consumed_by-le, step-Moved}
use ws_pmd_rs.Codec.Progress.{handed, round-sliced, produced-fits, round-Rounded}

-- A width that `flate2` builds an inflater at.
pub record IsBuildable (c : InflaterConfig) : Type 0 where
  pub floor : 9 ≤ c.window_bits
  pub ceiling : c.window_bits ≤ 15

pub returns : {A : Type 0} {a : A} → ◌≢◌ {A = Outcome CodecError A} (ok a) panic
returns q = cc

pub fails : {A : Type 0} {e : CodecError} → ◌≢◌ {A = Outcome CodecError A} (err e) panic
fails q = cc

judge-NoPanic :
    (code : Option Status) (consumed produced : ℕ) (input : Bytes)
    → consumed ≤ length input
    → judge code consumed produced input ≢ panic
unfolding judge
judge-NoPanic none consumed produced input fits = λ q. cc
judge-NoPanic (some code) consumed produced input fits =
    rw (slice_from-ok {E = CodecError} consumed input fits) (
      if-arms (λ x. x ≢ panic) (not (consumed == 0) || not (produced == 0)) (λ e q. cc)
        (λ e. if-arms (λ x. x ≢ panic) (is_empty (drop consumed input)) (λ f q. cc) (λ f q. cc)))

module _ (B : Backend) where
  pub build-total : (c : InflaterConfig) → IsBuildable c → (i : B.Decompress) × (build B c ≡ ok i)
  unfolding build
  build-total c v =
      let (i, h) = B.builds c.zlib_header c.window_bits v.floor v.ceiling in (i, ap expect h)

  reinitialise_inflater-total :
      (c : InflaterConfig) (i : B.Decompress)
      → IsBuildable c
      → (j : B.Decompress) × (reinitialise_inflater B c i ≡ ok j)
  unfolding reinitialise_inflater
  reinitialise_inflater-total c i v =
      if-arms (λ x. (j : B.Decompress) × (x ≡ ok j)) (resets_in_place c) (λ e. (_, refl))
        (λ e. build-total c v)

  pub reinitialise-NoPanic : (d : Decoder B) → IsBuildable d.config → reinitialise B d ≢ panic
  unfolding reinitialise
  reinitialise-NoPanic d v =
      let (i, h) = reinitialise_inflater-total d.config d.inflater v in rw h returns

  module _ (limit : ℕ) where
    note_stream-NoPanic :
        (l : Loop B limit) (s : Step)
        → IsBuildable l.decoder.config
        → note_stream B limit l s ≢ panic
    unfolding note_stream
    note_stream-NoPanic l s v =
        if-arms (λ x. x ≢ panic) s.stream_ended
          (λ e. kept (reinitialise B l.decoder) (reinitialise-NoPanic l.decoder v)) (λ e q. cc)
      where
        kept :
            (o : Outcome CodecError (Decoder B))
            → o ≢ panic
            → (o >>= λ d. ok (record l { decoder = d; ended_a_stream = true })) ≢ panic
        kept (ok d) h = λ q. cc
        kept (err e) h = λ q. cc
        kept panic h = λ q. h refl

    go_on-NoPanic :
        (g : Loop B limit) (o : Option Bytes) (r : Outcome CodecError (Loop B limit))
        → r ≢ panic
        → (go_on B limit g o r).verdict ≢ panic
    go_on-NoPanic g none (ok l) h = λ q. cc
    go_on-NoPanic g (some x) (ok l) h = λ q. cc
    go_on-NoPanic g none (err e) h = λ q. cc
    go_on-NoPanic g (some x) (err e) h = λ q. cc
    go_on-NoPanic g none panic h = λ q. h refl
    go_on-NoPanic g (some x) panic h = λ q. h refl

    take_in-NoPanic :
        (l : Loop B limit) (r : Outcome CodecError Step)
        → IsBuildable l.decoder.config
        → r ≢ panic
        → ((s : Step) → r ≡ ok s → s.produced ≤ length l.scratch)
        → (take_in B limit l r).verdict ≢ panic
    unfolding take_in extend
    take_in-NoPanic l (ok s) v h fits =
        let more = take s.produced l.scratch in
        rw (slice_to-ok {E = CodecError} s.produced l.scratch (fits s refl)) (
          if-arms (λ (x : Round B limit). x.verdict ≢ panic)
            (ltb limit (saturating_add l.decoder.delivered (length (l.output ++ more))))
            (λ e. fails)
            (λ e.
              go_on-NoPanic _ s.remaining _
                (note_stream-NoPanic (record l { output = l.output ++ more }) s v)))
    take_in-NoPanic l (err e) v h fits = λ q. cc
    take_in-NoPanic l panic v h fits = λ q. h refl

    round-NoPanic :
        (l : Loop B limit) → IsBuildable l.decoder.config → (round B limit l).verdict ≢ panic
    unfolding step
    round-NoPanic l v =
        let buffer = handed B limit l in
        let i = l.decoder.inflater in
        rw (round-sliced B limit l) (
          take_in-NoPanic (called B limit l buffer) (step B i l.input buffer) v
            (judge-NoPanic (B.status_of i l.input buffer) (consumed_by B i l.input buffer)
              (produced_by B i l.input buffer) l.input (consumed_by-le B i l.input buffer))
            (λ s k. rw (step-Moved B i l.input buffer k).same_produced (produced-fits B limit l)))

    module _ (small : limit < usize_max) where
      follow-NoPanic :
          (again : Loop B limit → Option (Inflated B limit)) (m : Loop B limit)
          (v : Outcome CodecError Bool) {r : Inflated B limit}
          → v ≢ panic
          → (v ≡ ok true → again m ≡ some r → r.answer ≢ panic)
          → follow B limit again m v ≡ some r
          → r.answer ≢ panic
      follow-NoPanic again m (ok true) n ih h = ih refl h
      follow-NoPanic again m (ok false) n ih h = λ q. cc (ap (λ r. r.answer) (some-injective h) ∙ q)
      follow-NoPanic again m (err e) n ih h = λ q. cc (ap (λ r. r.answer) (some-injective h) ∙ q)
      follow-NoPanic again m panic n ih h = λ q. n refl

      run-NoPanic :
          (fuel : ℕ) (l : Loop B limit) {r : Inflated B limit}
          → IsBuildable l.decoder.config
          → run B limit fuel l ≡ some r
          → r.answer ≢ panic
      unfolding run
      run-NoPanic zero l v h = λ q. cc
      run-NoPanic (suc fuel) l v h =
          follow-NoPanic (run B limit fuel) (round B limit l).after (round B limit l).verdict
            (round-NoPanic l v)
            (λ k.
              run-NoPanic fuel (round B limit l).after
                (rw (round-Rounded B limit l small k).keeps.config v))
            h

      pub inflate-NoPanic :
          (d : Decoder B) (input output : Bytes) {r : Inflated B limit}
          → IsBuildable d.config
          → inflate B limit d input output ≡ some r
          → r.answer ≢ panic
      unfolding inflate
      inflate-NoPanic d input output v h =
          run-NoPanic (suc (length input + limit)) (started B limit d input output) v h
