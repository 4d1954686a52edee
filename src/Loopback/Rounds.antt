-- ===== src/Loopback/Rounds.antt =====
-- Proofs about `inflate` of src/codec.rs, on more of a stream: it takes in all the input and puts
-- out all that it stands for.
use ws_pmd_rs.Base.{
  ℕ, zero, suc, ◌+◌, ◌≤◌, ◌<◌, ◌≡◌, ◌⊎◌, inl, inr, refl, ap, ◌∙◌, true, false, not, ◌||◌, [], ◌∷◌,
  ◌++◌, Bytes, List, Option, none, some, ◌==◌, ltb, length, take, drop, length-append, length-take,
  slice_to, slice_to-ok, slice_from-ok, if-true, if-arms, lt→ltb, arith, ok,
}
use ws_pmd_rs.Codec.Backend.{Backend, Status}
use ws_pmd_rs.Codec.Numbers.{usize_max, saturating_add, advance}
use ws_pmd_rs.Codec.Inflater.{Decoder}
use ws_pmd_rs.Codec.Step.{is_stream_end, judge, consumed_by, produced_by, step}
use ws_pmd_rs.Codec.Inflate.{Loop, writable, opened, note_stream, extend, take_in, called, round}
use ws_pmd_rs.Codec.Progress.{round-sliced}
use ws_pmd_rs.Error.{CodecError}
use ws_pmd_rs.Loopback.Format.{Format, Called, Inflates}

advance-exact :
    (before after n k : ℕ) → after ≡ before + k → k ≤ n → n ≤ usize_max → advance before after n ≡ k
unfolding advance
advance-exact before after n k e h small = ground arith

judge-moved :
    (k : Status) (n p : ℕ) (input : Bytes)
    → n ≤ length input
    → 0 < n + p
    → judge (some k) n p input
      ≡ ok
          (record { produced = p; remaining = some (drop n input); stream_ended = is_stream_end k })
unfolding judge
judge-moved k n p input fits h =
    rw (slice_from-ok {E = CodecError} n input fits)
      (if-true (not (n == 0) || not (p == 0)) _ (moved n p h))
  where
    moved : (n p : ℕ) → 0 < n + p → (not (n == 0) || not (p == 0)) ≡ true
    moved n p h = ground arith

judge-done :
    (k : Status)
    → judge (some k) 0 0 []
      ≡ ok (record { produced = 0; remaining = none; stream_ended = is_stream_end k })
unfolding judge
judge-done k = refl

is_nil : {A : Type 0} (xs : List A) → length xs ≡ 0 → xs ≡ []
is_nil [] h = refl
is_nil (x ∷ xs) h = absurd (omega (arith, h))

pub take_empty : (n : ℕ) (xs : Bytes) → xs ≡ [] → take n xs ≡ xs
take_empty zero [] h = refl
take_empty (suc n) [] h = refl
take_empty n (x ∷ xs) h = cc

take-append_le : (n : ℕ) (xs ys : Bytes) → n ≤ length xs → take n (xs ++ ys) ≡ take n xs
take-append_le zero xs ys h = refl
take-append_le (suc n) [] ys h = absurd (omega (arith, h))
take-append_le (suc n) (x ∷ xs) ys h = ap (◌∷◌ x) (take-append_le n xs ys (omega (arith, h)))

module _ (F : Format) (D : Backend) (law : Inflates F D) where
  -- What `step` makes of a call.
  step-Called :
      (i : D.Decompress) (input buffer left : Bytes)
      → length input ≤ usize_max
      → length buffer ≤ usize_max
      → (c : Called F D law.fed law.given law.window i input buffer left)
      → step D i input buffer ≡ judge (some c.status) c.took (length c.put) input
  unfolding step consumed_by produced_by
  step-Called i input buffer left hi hb c =
      rw
        (
          c.answered,
          advance-exact (D.total_in i) (D.total_in (D.state_after i input buffer)) (length input)
              c.took c.counts_in c.took-le hi,
          advance-exact (D.total_out i) (D.total_out (D.state_after i input buffer)) (length buffer)
              (length c.put) c.counts_out c.put-le hb,
        )
        refl

  module _ (limit : ℕ) (small : limit < usize_max) where
    -- The loop is in the middle of a stream, of which `left` is still to be put out, within the
    -- limit.
    pub record Midway (l : Loop D limit) (stream left : Bytes) : Type 0 where
      pub input_is_slice : length l.input ≤ usize_max
      pub room : 0 < length l.scratch
      pub room-le : length l.scratch ≤ usize_max
      pub streamed : law.fed l.decoder.inflater ++ l.input ≡ stream
      pub is_stream : F.IsStream (law.window l.decoder.inflater) stream
      pub means : F.meaning stream ≡ law.given l.decoder.inflater ++ left
      pub fits : l.decoder.delivered + (length l.output + length left) ≤ limit

    pub opened-inflater :
        (d : Decoder D) (n : ℕ) (o : Option Bytes) → (opened D limit d n o).inflater ≡ d.inflater
    opened-inflater d n none = refl
    opened-inflater d n (some rest) =
        if-arms (λ (e : Decoder D). e.inflater ≡ d.inflater) (ltb (length rest) n) (λ e. refl)
          (λ e. refl)

    pub opened-open :
        (d : Decoder D) (n : ℕ) (rest : Bytes)
        → (d.stream_open ≡ true) ⊎ (length rest < n)
        → (opened D limit d n (some rest)).stream_open ≡ true
    opened-open d n rest (inl h) =
        if-arms (λ (e : Decoder D). e.stream_open ≡ true) (ltb (length rest) n) (λ e. refl) (λ e. h)
    opened-open d n rest (inr h) = rw (lt→ltb (length rest) n h) refl

    module _ (l : Loop D limit) (stream left : Bytes) (m : Midway l stream left) where
      abbrev pub i : D.Decompress
      i = l.decoder.inflater

      abbrev pub buffer : Bytes
      buffer = take (writable D limit l) l.scratch

      pub writable_bounds : (0 < writable D limit l) × (writable D limit l ≤ length l.scratch)
      unfolding writable
      writable_bounds = omega (arith, m.room)

      pub length-buffer : length buffer ≡ writable D limit l
      length-buffer = omega (arith, length-take (writable D limit l) l.scratch, writable_bounds.1)

      pub call : Called F D law.fed law.given law.window i l.input buffer left
      call =
          law.calls l.decoder.inflater l.input buffer left
            (omega (arith, length-buffer, writable_bounds.0)) (rw m.streamed m.is_stream)
            (ap F.meaning m.streamed ∙ m.means)

      abbrev pub grown : Loop D limit
      grown = record (called D limit l buffer) { output = l.output ++ call.put }

      size_fits :
          ltb limit (saturating_add l.decoder.delivered (length (l.output ++ call.put))) ≡ false
      size_fits = within_limit (
          omega (
            arith,
            length-append l.output call.put,
            length-append call.put call.still,
            ap length call.left_split,
            m.fits,
          ))
        where
          within_limit : {n : ℕ} → n ≤ limit → ltb limit n ≡ false
          within_limit h = ground (arith, h)

      buffer_small : length buffer ≤ usize_max
      buffer_small = omega (arith, length-buffer, writable_bounds.1, m.room-le)

      -- A round that moves.
      abbrev pub next : Loop D limit
      next = record grown {
        decoder = opened D limit grown.decoder (length l.input) (some (drop call.took l.input));
        input = drop call.took l.input;
      }

      -- What the round takes out of the scratch buffer is what the call put there.
      put-sliced :
          slice_to {E = CodecError} (length call.put) (called D limit l buffer).scratch
          ≡ ok call.put
      put-sliced =
          let after = D.buffer_after i l.input buffer in
          let fits : length call.put ≤ length after =
            omega (arith, call.put-le, D.buffer_length i l.input buffer) in
          slice_to-ok (length call.put) (called D limit l buffer).scratch
            (omega (arith, fits, length-append after (drop (length buffer) l.scratch)))
          ∙ ap ok (
              take-append_le (length call.put) after (drop (length buffer) l.scratch) fits
              ∙ call.buffered)

      pub round-moves :
          0 < call.took + length call.put
          → round D limit l ≡ record { after = next; verdict = ok true }
      unfolding take_in extend note_stream
      round-moves h =
          rw
            (
              round-sliced D limit l,
              step-Called i l.input buffer left m.input_is_slice buffer_small call,
              judge-moved call.status call.took (length call.put) l.input call.took-le h,
              put-sliced,
              size_fits,
              call.not_ended,
            )
            refl

      pub nothing_put : call.took + length call.put ≡ 0 → call.put ≡ []
      nothing_put h = is_nil call.put (omega (arith, h))

      module _ (still : call.took + length call.put ≡ 0) where
        took_whole : call.took ≡ length l.input
        took_whole = call.took_all (omega (arith, still, length-buffer, writable_bounds.0))

        pub input_over : l.input ≡ []
        input_over = is_nil l.input (omega (arith, still, took_whole))

        pub left_over : left ≡ []
        left_over =
            call.left_split
            ∙ ap (λ t. t ++ call.still) (nothing_put still)
            ∙ call.put_all (omega (arith, still, length-buffer, writable_bounds.0))

        judge-ends :
            judge (some call.status) call.took (length call.put) l.input
            ≡ ok (record {
              produced = 0;
              remaining = none;
              stream_ended = is_stream_end call.status;
            })
        judge-ends =
            let no_input : call.took ≡ 0 = omega (arith, still) in
            let no_output : length call.put ≡ 0 = omega (arith, still) in
            rw (no_input, no_output, input_over) (judge-done call.status)

        nothing_sliced : slice_to {E = CodecError} 0 (called D limit l buffer).scratch ≡ ok []
        nothing_sliced = slice_to-ok 0 (called D limit l buffer).scratch (omega arith)

        size_stays :
            ltb limit (saturating_add l.decoder.delivered (length (l.output ++ []))) ≡ false
        size_stays = rw (nothing_put still) at size_fits

        -- A round that does not move, which is the last.
        pub round-ends : round D limit l ≡ record {
          after = record (called D limit l buffer) { output = l.output ++ [] };
          verdict = ok false;
        }
        unfolding take_in extend note_stream
        round-ends =
            rw
              (
                round-sliced D limit l,
                step-Called i l.input buffer left m.input_is_slice buffer_small call,
                judge-ends,
                nothing_sliced,
                size_stays,
                call.not_ended,
              )
              refl
