-- ===== src/Tests/Streams.antt =====
-- The theorems on the loops of src/encoder.rs, at a compressor that holds back what does not fit.
use native.Mathlib.Nat.{le_refl, le_of_eq}
use ws_pmd_rs.Base.{
  ℕ, ◌+◌, ◌*◌, ◌≤◌, ◌<◌, ◌≡◌, refl, ap, sym, [], ◌∷◌, ◌++◌, Bytes, some, length, length-append,
  length-take, length-drop, take, drop, arith, true, false, ok,
}
use ws_pmd_rs.Codec.Numbers.{trailer}
use ws_pmd_rs.Config.{EncoderConfig}
use ws_pmd_rs.Negotiated.{Negotiated, server, local_max_window_bits, local_no_context_takeover}
use ws_pmd_rs.Encoder.Backend.{Backend, Flush, flush_none, flush_sync, status_ok}
use ws_pmd_rs.Encoder.Frame.{framing_margin}
use ws_pmd_rs.Encoder.Bounded.{Bounded}
use ws_pmd_rs.Encoder.Strip.{IsMessageOf}
use ws_pmd_rs.Encoder.Drive.{Produced, produce, produce_non_final}
use ws_pmd_rs.Encoder.Drive.Whole.{
  Complete, IsFragmentOf, produce-Complete, produce_non_final-Complete,
}
use ws_pmd_rs.Encoder.Transaction.{for_local, build, for_agreement}
use ws_pmd_rs.Encoder.History.{Chunk, Follows, log_steps}
use ws_pmd_rs.Encoder.History.Built.{encoder-Follows}
use ws_pmd_rs.Tests.Encoding.{storing, fresh, holding, one_step}

abbrev added : Bytes → Flush → Bytes
added input flush_none = input
added input flush_sync = input ++ trailer

-- The state is the bytes in, the bytes out and those that are held back, and all that went in and
-- out.
abbrev pub queue : Backend
queue = record {
  Compress = ℕ × ℕ × Bytes × Bytes × Bytes;
  new_with_window_bits = λ level z bits. (0, 0, [], [], []);
  reset = λ c. (0, 0, [], [], []);
  total_in = λ c. c.0;
  total_out = λ c. c.1;
  state_after = λ c input room flush. (
    c.0 + length input,
    c.1 + length (take room (c.2 ++ added input flush)),
    drop room (c.2 ++ added input flush),
    c.3 ++ input,
    c.4 ++ take room (c.2 ++ added input flush),
  );
  appended = λ c input room flush. take room (c.2 ++ added input flush);
  status_of = λ c input room flush. some status_ok;
  reserved = λ capacity len room. len + room;
  reserves = λ capacity len room. omega arith;
}

pub cut :
    (room : ℕ) (xs ys : Bytes)
    → length (drop room (xs ++ ys)) + length (take room (xs ++ ys)) ≡ length xs + length ys
cut room xs ys =
    omega (arith, length-drop room (xs ++ ys), length-take room (xs ++ ys), length-append xs ys)

pub whole_cut : (room : ℕ) (xs : Bytes) → length (take room xs) < room → length (drop room xs) ≡ 0
whole_cut room xs h = omega (arith, length-drop room xs, length-take room xs, h)

pub within_room : (room : ℕ) (xs : Bytes) → length (take room xs) ≤ room
within_room room xs = omega (arith, length-take room xs)

pub paid :
    (room : ℕ) (xs ys : Bytes)
    → length (drop room (xs ++ ys)) + length (take room (xs ++ ys)) ≤ length xs + 1 * length ys
paid room xs ys = omega (arith, cut room xs ys)

pub take_all : (xs : Bytes) → take (length xs) xs ≡ xs
take_all [] = refl
take_all (x ∷ xs) = ap (◌∷◌ x) (take_all xs)

four_lt : 4 < framing_margin
four_lt = omega arith

abbrev queue_bounded : Bounded queue
queue_bounded = record {
  consumed = λ c i room f. length i;
  consumed-le = λ c i room f. le_refl (length i);
  counts_in = λ c i room f. refl;
  counts_out = λ c i room f. refl;
  fits_room = λ c i room f. within_room room (c.2 ++ added i f);
  taken_in = λ c. c.3;
  put_out = λ c. c.4;
  takes_in = λ c i room f. ap (λ t. c.3 ++ t) (sym (take_all i));
  puts_out = λ c i room f. refl;
  window = λ c. 15;
  keeps_window = λ c i room f. refl;
  owed = λ c. length c.2;
  growth = 1;
  marker = 4;
  marker_small = four_lt;
  pays = λ c i room. paid room c.2 i;
  pays_flush = λ c room. le_of_eq (cut room c.2 trailer);
  drains = λ c room s e h. whole_cut room (c.2 ++ trailer) h;
}

produce-Complete_example :
    (p : Produced queue) × (produce queue 9 (0, 0, [], [], []) (7 ∷ 8 ∷ []) ≡ some p)
    × Complete queue queue_bounded IsMessageOf (0, 0, [], [], []) (7 ∷ 8 ∷ []) p
produce-Complete_example =
    produce-Complete queue queue_bounded 9 (0, 0, [], [], []) (7 ∷ 8 ∷ []) (omega arith)

produce_non_final-Complete_example :
    (p : Produced queue) × (produce_non_final queue 9 (0, 0, [], [], []) (7 ∷ 8 ∷ []) ≡ some p)
    × Complete queue queue_bounded IsFragmentOf (0, 0, [], [], []) (7 ∷ 8 ∷ []) p
produce_non_final-Complete_example =
    produce_non_final-Complete queue queue_bounded 9 (0, 0, [], [], []) (7 ∷ 8 ∷ []) (omega arith)

abbrev resetting : Negotiated
resetting = record {
  role = server;
  server_no_context_takeover = true;
  client_no_context_takeover = false;
  server_max_window_bits = 12;
  client_max_window_bits = 15;
}

abbrev pub level_six : EncoderConfig
level_six = record { level = 6 }

abbrev no_chunk : Chunk
no_chunk = record { payload = []; last = false }

resetting-fresh : for_agreement storing resetting level_six ≡ ok fresh
unfolding for_agreement build for_local local_max_window_bits local_no_context_takeover
resetting-fresh = refl

encoder-Follows_example :
    Follows storing holding
      (log_steps storing one_step (record { sent = []; candidate = no_chunk }))
    × (true ≡ local_no_context_takeover resetting)
encoder-Follows_example =
    encoder-Follows storing resetting level_six no_chunk resetting-fresh one_step
