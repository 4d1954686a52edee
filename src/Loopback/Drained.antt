-- ===== src/Loopback/Drained.antt =====
-- Proofs about `inflate` of src/codec.rs, on more of a stream: it takes in all the input and puts
-- out all that it stands for.
use ws_pmd_rs.Base.{
  ℕ, zero, suc, ◌+◌, ◌<◌, ◌≡◌, ◌⊎◌, inl, inr, refl, ap, ◌∙◌, sym, true, [], ◌++◌, append_assoc,
  Bytes, some, some-injective, length, take, drop, length-append, length-drop, take-append-drop,
  arith, ok,
}
use ws_pmd_rs.Codec.Backend.{Backend}
use ws_pmd_rs.Codec.Numbers.{usize_max}
use ws_pmd_rs.Codec.Inflate.{Loop, called, Inflated, run}
use ws_pmd_rs.Codec.Progress.{called-scratch, Keeps, Keeps-trans, opened-Keeps}
use ws_pmd_rs.Loopback.Format.{Format, Called, Inflates}
use ws_pmd_rs.Loopback.Rounds.{
  Midway, take_empty, opened-inflater, opened-open, call, buffer, grown, next, round-moves,
  nothing_put, input_over, left_over, round-ends,
}

module _ (F : Format) (D : Backend) (law : Inflates F D) (limit : ℕ)
    (small : limit < usize_max) where
  -- The loop is over: all that the stream stands for is out, and the stream is open.
  pub record Drained (l : Loop D limit) (stream left : Bytes) (r : Inflated D limit) : Type 0 where
    pub answer : r.answer ≡ ok l.ended_a_stream
    pub output : r.output ≡ l.output ++ left
    pub fed_all : law.fed r.decoder.inflater ≡ stream
    pub given_all : law.given r.decoder.inflater ≡ F.meaning stream
    pub same_window : law.window r.decoder.inflater ≡ law.window l.decoder.inflater
    -- It is open where it was, or where there was something to read.
    pub opens : (l.decoder.stream_open ≡ true) ⊎ (0 < length l.input) → r.decoder.stream_open ≡ true
    pub keeps : Keeps D l.decoder r.decoder

  module _ (l : Loop D limit) (stream left : Bytes)
      (m : Midway F D law limit small l stream left) where
    abbrev i : D.Decompress
    i = l.decoder.inflater

    abbrev c :
        Called F D law.fed law.given law.window i l.input
          (buffer F D law limit small l stream left m)
          left
    c = call F D law limit small l stream left m

    abbrev later : Loop D limit
    later = next F D law limit small l stream left m

    scratch_kept : length later.scratch ≡ length l.scratch
    scratch_kept = called-scratch D limit l

    next-Keeps : Keeps D l.decoder later.decoder
    next-Keeps =
        Keeps-trans D limit
          (record {
            config = refl;
            reset_between_messages = refl;
            delivered = refl;
            poisoned = refl;
          })
          (opened-Keeps D limit (grown F D law limit small l stream left m).decoder (length l.input)
            (some (drop c.took l.input)))

    next_inflater :
        later.decoder.inflater
        ≡ D.state_after i l.input (buffer F D law limit small l stream left m)
    next_inflater =
        opened-inflater F D law limit small (grown F D law limit small l stream left m).decoder
          (length l.input) (some (drop c.took l.input))

    next_opens :
        (l.decoder.stream_open ≡ true) ⊎ (0 < length l.input)
        → (later.decoder.stream_open ≡ true) ⊎ (0 < length later.input)
    next_opens o = by c.took refl o
      where
        by :
            (k : ℕ)
            → k ≡ c.took
            → (l.decoder.stream_open ≡ true) ⊎ (0 < length l.input)
            → (later.decoder.stream_open ≡ true) ⊎ (0 < length later.input)
        by k e (inl h) = inl (
            opened-open F D law limit small (grown F D law limit small l stream left m).decoder
              (length l.input) (drop c.took l.input) (inl h))
        by zero e (inr h) = inr (omega (arith, e, h, length-drop c.took l.input))
        by (suc k) e (inr h) = inl (
            opened-open F D law limit small (grown F D law limit small l stream left m).decoder
              (length l.input) (drop c.took l.input)
              (inr (omega (arith, e, h, length-drop c.took l.input))))

    next-Midway : Midway F D law limit small later stream c.still
    next-Midway = record {
      input_is_slice = omega (arith, m.input_is_slice, length-drop c.took l.input);
      room = omega (arith, scratch_kept, m.room);
      room-le = omega (arith, scratch_kept, m.room-le);
      streamed = rw next_inflater (
          ap (λ t. t ++ drop c.took l.input) c.fed_after
          ∙ append_assoc (law.fed i) (take c.took l.input) (drop c.took l.input)
          ∙ ap (λ t. law.fed i ++ t) (take-append-drop c.took l.input)
          ∙ m.streamed);
      is_stream = rw (next_inflater, c.same_window) m.is_stream;
      means = rw next_inflater (
          m.means
          ∙ ap (λ t. law.given i ++ t) c.left_split
          ∙ sym (append_assoc (law.given i) c.put c.still)
          ∙ ap (λ t. t ++ c.still) (sym c.given_after));
      fits = omega (
        arith,
        next-Keeps.delivered,
        length-append l.output c.put,
        length-append c.put c.still,
        ap length c.left_split,
        m.fits,
      );
    }

    -- What the last round leaves.
    abbrev last : Inflated D limit
    last = record {
      decoder = (called D limit l (buffer F D law limit small l stream left m)).decoder;
      output = l.output ++ [];
      answer = ok l.ended_a_stream;
    }

    Drained-last : c.took + length c.put ≡ 0 → Drained l stream left last
    Drained-last still =
        let over = input_over F D law limit small l stream left m still in
        let none_left = left_over F D law limit small l stream left m still in
        record {
          answer = refl;
          output = ap (λ t. l.output ++ t) (sym none_left);
          fed_all =
              c.fed_after
              ∙ ap (λ t. law.fed l.decoder.inflater ++ t) (take_empty c.took l.input over)
              ∙ m.streamed;
          given_all =
              c.given_after
              ∙ ap (λ t. law.given l.decoder.inflater ++ t)
                  (nothing_put F D law limit small l stream left m still ∙ sym none_left)
              ∙ sym m.means;
          same_window = c.same_window;
          opens = λ o. open_already o (ap length over);
          keeps = record {
            config = refl;
            reset_between_messages = refl;
            delivered = refl;
            poisoned = refl;
          };
        }
      where
        open_already :
            (l.decoder.stream_open ≡ true) ⊎ (0 < length l.input)
            → length l.input ≡ 0
            → l.decoder.stream_open ≡ true
        open_already (inl o) e = o
        open_already (inr o) e = absurd (omega (arith, o, e))

    Drained-next :
        {r : Inflated D limit}
        → Drained (next F D law limit small l stream left m) stream c.still r
        → Drained l stream left r
    Drained-next d = record {
      answer = d.answer;
      output =
          d.output
          ∙ append_assoc l.output c.put c.still
          ∙ ap (λ t. l.output ++ t) (sym c.left_split);
      fed_all = d.fed_all;
      given_all = d.given_all;
      same_window = d.same_window ∙ ap law.window next_inflater ∙ c.same_window;
      opens = λ o. d.opens (next_opens o);
      keeps = Keeps-trans D limit next-Keeps d.keeps;
    }

  -- In the middle of a stream, the loop ends with all of it in and all that it stands for out.
  pub run-Drained :
      (fuel : ℕ) (l : Loop D limit) (stream left : Bytes) {r : Inflated D limit}
      → Midway F D law limit small l stream left
      → run D limit fuel l ≡ some r
      → Drained l stream left r
  unfolding run
  run-Drained zero l stream left m h = cc
  run-Drained (suc fuel) l stream left {r} m h =
      by
        ((call F D law limit small l stream left m).took
          + length (call F D law limit small l stream left m).put)
        refl
        (λ k.
          run-Drained fuel (next F D law limit small l stream left m) stream
            (call F D law limit small l stream left m).still (next-Midway l stream left m) k)
    where
      by :
          (k : ℕ)
          → k
            ≡ (call F D law limit small l stream left m).took
              + length (call F D law limit small l stream left m).put
          → (run D limit fuel (next F D law limit small l stream left m) ≡ some r
              → Drained
                  (next F D law limit small l stream left m)
                  stream
                  (call F D law limit small l stream left m).still
                  r)
          → Drained l stream left r
      by zero e rest =
          let ended : last l stream left m ≡ r =
            some-injective (rw (round-ends F D law limit small l stream left m (sym e)) at h) in
          rw (← ended) (Drained-last l stream left m (sym e))
      by (suc k) e rest =
          Drained-next l stream left m
            (rest (rw (round-moves F D law limit small l stream left m (omega (arith, e))) at h))
