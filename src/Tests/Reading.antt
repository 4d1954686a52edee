-- ===== src/Tests/Reading.antt =====
-- An inflater for the format of the marks.
use native.Mathlib.Nat.{le_refl}
use ws_pmd_rs.Base.{
  ℕ, zero, suc, ◌≤◌, ◌<◌, ◌≡◌, refl, ap, ◌∙◌, sym, [], ◌∷◌, ◌++◌, Bytes, Option, some, length,
  length-append, length-take, length-drop, take, drop, take-append-drop, take-append_length,
  drop-append_length, arith,
}
use ws_pmd_rs.Codec.Backend as Inflate
use ws_pmd_rs.Loopback.Format.{Called, Inflates}
use ws_pmd_rs.Tests.Streams.{take_all}
use ws_pmd_rs.Tests.Marks.{announced, announcing}

-- The state is the window, the octets in and the octets out.
abbrev pub Reader : Type 0
Reader = ℕ × Bytes × Bytes

abbrev pub read_out : Reader → Bytes → Bytes → Bytes
read_out i input buffer = take (length buffer) (drop (length i.2) (announced (i.1 ++ input)))

pub read_out-le :
    (i : Reader) (input buffer : Bytes) → length (read_out i input buffer) ≤ length buffer
read_out-le i input buffer =
    omega (arith, length-take (length buffer) (drop (length i.2) (announced (i.1 ++ input))))

pub buffer_kept :
    (i : Reader) (input buffer : Bytes)
    → length (read_out i input buffer ++ drop (length (read_out i input buffer)) buffer)
      ≡ length buffer
buffer_kept i input buffer =
    let out = read_out i input buffer in
    omega (
      arith,
      read_out-le i input buffer,
      length-append out (drop (length out) buffer),
      length-drop (length out) buffer,
    )

abbrev pub reading : Inflate.Backend
reading = record {
  Decompress = Reader;
  new_with_window_bits = λ zlib_header bits. some (bits, [], []);
  reset = λ i zlib_header. (15, [], []);
  total_in = λ i. length i.1;
  total_out = λ i. length i.2;
  state_after = λ i input buffer. (i.0, i.1 ++ input, i.2 ++ read_out i input buffer);
  buffer_after =
      λ i input buffer. read_out i input buffer ++ drop (length (read_out i input buffer)) buffer;
  status_of = λ i input buffer. some Inflate.status_ok;
  buffer_length = buffer_kept;
  builds = λ zlib_header bits lo hi. ((bits, [], []), refl);
}

pub over : (n : ℕ) (xs : Bytes) → length (take n xs) < n → drop n xs ≡ []
over zero xs h = absurd (omega (arith, h))
over (suc n) [] h = refl
over (suc n) (x ∷ xs) h = over n xs (omega (arith, h))

module _ (i : Reader) (input buffer left : Bytes) (m : announced (i.1 ++ input) ≡ i.2 ++ left) where
  pub read_out-left : read_out i input buffer ≡ take (length buffer) left
  read_out-left =
      ap (λ t. take (length buffer) (drop (length i.2) t)) m
      ∙ ap (λ t. take (length buffer) t) (drop-append_length i.2 left)

  pub reading-Called :
      Called announcing reading (λ i. i.1) (λ i. i.2) (λ i. i.0) i input buffer left
  reading-Called = record {
    took = length input;
    took-le = le_refl (length input);
    put = read_out i input buffer;
    put-le = read_out-le i input buffer;
    still = drop (length buffer) left;
    left_split =
        sym (take-append-drop (length buffer) left)
        ∙ ap (λ t. t ++ drop (length buffer) left) (sym read_out-left);
    counts_in = length-append i.1 input;
    counts_out = length-append i.2 (read_out i input buffer);
    buffered =
        take-append_length (read_out i input buffer)
          (drop (length (read_out i input buffer)) buffer);
    fed_after = ap (λ t. i.1 ++ t) (sym (take_all input));
    given_after = refl;
    same_window = refl;
    status = Inflate.status_ok;
    answered = refl;
    not_ended = refl;
    took_all = λ h. refl;
    put_all = λ h. over (length buffer) left (rw read_out-left at h);
  }

pub some_reader : {i j : Reader} → ◌≡◌ {A = Option Reader} (some i) (some j) → j ≡ i
some_reader h = cc

pub made :
    {bits : ℕ} {i : Reader}
    → ◌≡◌ {A = Option Reader} (some (bits, [], [])) (some i)
    → (i.1 ≡ []) × (i.2 ≡ []) × (i.0 ≡ bits)
made h = let e = some_reader h in (ap (λ r. r.1) e, ap (λ r. r.2) e, ap (λ r. r.0) e)

abbrev pub reading_inflates : Inflates announcing reading
reading_inflates = record {
  fed = λ i. i.1;
  given = λ i. i.2;
  window = λ i. i.0;
  fresh = λ zlib_header bits i h. made h;
  restarted = λ i zlib_header. (refl, refl, refl);
  calls = λ i input buffer left room stream m. reading-Called i input buffer left m;
}
