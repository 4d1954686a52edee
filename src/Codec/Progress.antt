-- ===== src/Codec/Progress.antt =====
-- Proofs about one round of the loop of `Decoder::inflate` in src/codec.rs.
use ws_pmd_rs.Base.{
  ℕ, ◌+◌, ◌≤◌, ◌<◌, ◌≡◌, refl, ap, ◌∙◌, Bool, true, false, ◌++◌, Bytes, Option, none, some, ltb,
  min, length, take, drop, length-append, length-take, length-drop, arith, Bool-cases, inl, inr,
  slice_to, slice_to-ok, Outcome, ok, err, panic, >>=-eq-ok, ok-injective,
}
use ws_pmd_rs.Error.{CodecError}
use ws_pmd_rs.Codec.Backend.{Backend}
use ws_pmd_rs.Codec.Numbers.{usize_max, saturating_add}
use ws_pmd_rs.Codec.Inflater.{Decoder, reinitialise_inflater, reinitialise}
use ws_pmd_rs.Codec.Step.{Step, produced_by, step}
use ws_pmd_rs.Codec.Inflate.{
  Loop, writable, opened, note_stream, go_on, extend, take_in, called, round,
}
use ws_pmd_rs.Codec.Moves.{Moved, step-Moved, produced_by-le}

module _ (B : Backend) where
  -- What no call on the decoder inside of the loop changes.
  pub record Keeps (d e : Decoder B) : Type 0 where
    pub config : e.config ≡ d.config
    pub reset_between_messages : e.reset_between_messages ≡ d.reset_between_messages
    pub delivered : e.delivered ≡ d.delivered
    pub poisoned : e.poisoned ≡ d.poisoned

  pub reinitialise-Keeps : (d : Decoder B) {e : Decoder B} → reinitialise B d ≡ ok e → Keeps d e
  unfolding reinitialise
  reinitialise-Keeps d {e} h =
      let (i, hi, made) =
        >>=-eq-ok (reinitialise_inflater B d.config d.inflater) _ {result = e} h in
      rw (← ok-injective made)
        (record { config = refl; reset_between_messages = refl; delivered = refl; poisoned = refl })

  module _ (limit : ℕ) where
    pub opened-Keeps :
        (d : Decoder B) (before : ℕ) (o : Option Bytes) → Keeps d (opened B limit d before o)
    opened-Keeps d before none = record {
      config = refl;
      reset_between_messages = refl;
      delivered = refl;
      poisoned = refl;
    }
    opened-Keeps d before (some rest) = elim (Bool-cases (ltb (length rest) before)) [
      | inl e ↦ rw e (record {
        config = refl;
        reset_between_messages = refl;
        delivered = refl;
        poisoned = refl;
      })
      | inr e ↦ rw e (record {
        config = refl;
        reset_between_messages = refl;
        delivered = refl;
        poisoned = refl;
      })
    ]

    record Noted (g l : Loop B limit) : Type 0 where
      keeps : Keeps g.decoder l.decoder
      output : l.output ≡ g.output
      scratch : l.scratch ≡ g.scratch

    note_stream-Noted :
        (g : Loop B limit) (s : Step) {l : Loop B limit}
        → note_stream B limit g s ≡ ok l
        → Noted g l
    unfolding note_stream
    note_stream-Noted g s {l} h = elim (Bool-cases s.stream_ended) [
      | inl e ↦
          let (d, hd, made) = >>=-eq-ok (reinitialise B g.decoder) _ {result = l} (rw e at h) in
          rw (← ok-injective made)
            (record { keeps = reinitialise-Keeps g.decoder hd; output = refl; scratch = refl })
      | inr e ↦
          let made = ok-injective (rw e at h) in
          rw (← made) (record {
            keeps = opened-Keeps g.decoder (length g.input) s.remaining;
            output = refl;
            scratch = refl;
          })
    ]

    -- What a round that does not fail leaves.
    pub record Rounded (l m : Loop B limit) (goes_on : Bool) : Type 0 where
      pub keeps : Keeps l.decoder m.decoder
      pub scratch : length m.scratch ≡ length l.scratch
      pub produced : ℕ
      pub longer : length m.output ≡ length l.output + produced
      pub fits : m.decoder.delivered + length m.output ≤ limit
      pub shrinks : goes_on ≡ true → length m.input ≤ length l.input
      pub moves : goes_on ≡ true → length m.input < length l.input + produced

    cap : (x top : ℕ) → limit < top → ltb limit (min x top) ≡ false → x ≤ limit
    cap x top a b = ground arith

    pub Keeps-trans : {c d e : Decoder B} → Keeps c d → Keeps d e → Keeps c e
    Keeps-trans p q = record {
      config = q.config ∙ p.config;
      reset_between_messages = q.reset_between_messages ∙ p.reset_between_messages;
      delivered = q.delivered ∙ p.delivered;
      poisoned = q.poisoned ∙ p.poisoned;
    }

    module _ (l : Loop B limit) (p : ℕ) (grown : Loop B limit)
        (keeps : Keeps l.decoder grown.decoder) (scratch : length grown.scratch ≡ length l.scratch)
        (longer : length grown.output ≡ length l.output + p)
        (fits : grown.decoder.delivered + length grown.output ≤ limit) where
      go_on-Rounded :
          (o : Option Bytes) (r : Outcome CodecError (Loop B limit)) {b : Bool}
          → ((m : Loop B limit) → r ≡ ok m → Noted grown m)
          → ((rest : Bytes) → o ≡ some rest → length rest ≤ length l.input)
          → ((rest : Bytes) → o ≡ some rest → length rest < length l.input + p)
          → (go_on B limit grown o r).verdict ≡ ok b
          → Rounded l (go_on B limit grown o r).after b
      go_on-Rounded (some rest) (ok m) noted shrinks moves h =
          let n = noted m refl in
          record {
            keeps = Keeps-trans keeps n.keeps;
            scratch = ap length n.scratch ∙ scratch;
            produced = p;
            longer = ap length n.output ∙ longer;
            fits = rw (n.keeps.delivered, n.output) fits;
            shrinks = λ e. shrinks rest refl;
            moves = λ e. moves rest refl;
          }
      go_on-Rounded none (ok m) noted shrinks moves h =
          let n = noted m refl in
          record {
            keeps = Keeps-trans keeps n.keeps;
            scratch = ap length n.scratch ∙ scratch;
            produced = p;
            longer = ap length n.output ∙ longer;
            fits = rw (n.keeps.delivered, n.output) fits;
            shrinks = λ e. cc (h ∙ ap ok e);
            moves = λ e. cc (h ∙ ap ok e);
          }
      go_on-Rounded none (err e) noted shrinks moves h = cc
      go_on-Rounded (some rest) (err e) noted shrinks moves h = cc
      go_on-Rounded none panic noted shrinks moves h = cc
      go_on-Rounded (some rest) panic noted shrinks moves h = cc

    take_in-Rounded :
        (l c : Loop B limit) (r : Outcome CodecError Step) (p : ℕ) {b : Bool}
        → limit < usize_max
        → Keeps l.decoder c.decoder
        → length c.scratch ≡ length l.scratch
        → c.output ≡ l.output
        → p ≤ length c.scratch
        → ((s : Step) → r ≡ ok s → Moved l.input p s)
        → (take_in B limit c r).verdict ≡ ok b
        → Rounded l (take_in B limit c r).after b
    unfolding take_in extend
    take_in-Rounded l c (ok s) p {b} small keeps scratch same room moved h =
        let m = moved s refl in
        let more = take s.produced c.scratch in
        let sliced : slice_to {E = CodecError} s.produced c.scratch ≡ ok more =
          slice_to-ok s.produced c.scratch (rw m.same_produced room) in
        let size = saturating_add c.decoder.delivered (length (c.output ++ more)) in
        let h = rw sliced at h in
        elim (Bool-cases (ltb limit size)) [
          | inl e ↦ cc (rw e at h)
          | inr e ↦
              let longer : length (c.output ++ more) ≡ length l.output + p =
                length-append c.output more
                ∙ rw (same, m.same_produced, length-take) (ground (arith, room)) in
              rw (sliced, e)
                (go_on-Rounded l p (record c { output = c.output ++ more }) keeps scratch longer
                  (cap _ usize_max small e) s.remaining _ (λ n k. note_stream-Noted _ s k) m.shrinks
                  m.moves (rw e at h))
        ]
    take_in-Rounded l c (err e) p small keeps scratch same room moved h = cc
    take_in-Rounded l c panic p small keeps scratch same room moved h = cc

    -- The slice that a round hands on, which is in range.
    abbrev pub handed : Loop B limit → Bytes
    handed l = take (writable B limit l) l.scratch

    writable-le : (l : Loop B limit) → writable B limit l ≤ length l.scratch
    unfolding writable
    writable-le l = omega arith

    pub round-sliced :
        (l : Loop B limit)
        → round B limit l
          ≡ take_in B limit
              (called B limit l (handed l))
              (step B l.decoder.inflater l.input (handed l))
    unfolding round
    round-sliced l = rw (slice_to-ok (writable B limit l) l.scratch (writable-le l)) refl

    pub called-scratch :
        (l : Loop B limit) → length (called B limit l (handed l)).scratch ≡ length l.scratch
    called-scratch l = omega (
      arith,
      length-append (B.buffer_after l.decoder.inflater l.input (handed l))
          (drop (length (handed l)) l.scratch),
      B.buffer_length l.decoder.inflater l.input (handed l),
      length-take (writable B limit l) l.scratch,
      length-drop (length (handed l)) l.scratch,
    )

    -- What `step` says that it produced fits the scratch buffer.
    pub produced-fits :
        (l : Loop B limit)
        → produced_by B l.decoder.inflater l.input (handed l)
          ≤ length (called B limit l (handed l)).scratch
    produced-fits l = omega (
      arith,
      produced_by-le B l.decoder.inflater l.input (handed l),
      length-take (writable B limit l) l.scratch,
      called-scratch l,
    )

    -- Every round that does not fail keeps the decoder's settings, the total that was delivered and
    -- the size of the scratch buffer; it leaves a message within the limit, and where it goes on it
    -- has consumed or produced.
    pub round-Rounded :
        (l : Loop B limit) {b : Bool}
        → limit < usize_max
        → (round B limit l).verdict ≡ ok b
        → Rounded l (round B limit l).after b
    round-Rounded l small h = rw (round-sliced l) (
        take_in-Rounded l (called B limit l (handed l))
          (step B l.decoder.inflater l.input (handed l))
          (produced_by B l.decoder.inflater l.input (handed l)) small
          (record {
            config = refl;
            reset_between_messages = refl;
            delivered = refl;
            poisoned = refl;
          })
          (called-scratch l) refl (produced-fits l)
          (λ s k. step-Moved B l.decoder.inflater l.input (handed l) k) (rw (round-sliced l) at h))
