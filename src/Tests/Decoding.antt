-- ===== src/Tests/Decoding.antt =====
-- The theorems on src/codec.rs, at a backend that copies its input.
use ws_pmd_rs.Base.{
  ℕ, ◌+◌, ◌≤◌, ◌≡◌, refl, true, false, [], ◌∷◌, ◌++◌, Bytes, Option, none, some, length,
  length-append, length-take, length-drop, take, drop, min, within, if◌then◌else◌, arith, ok, err,
  panic, ◌≢◌,
}
use ws_pmd_rs.Error.{message_too_long, poisoned}
use ws_pmd_rs.Codec.Backend.{Backend, status_ok}
use ws_pmd_rs.Codec.Numbers.{advance}
use ws_pmd_rs.Codec.Inflater.{Decoder, reinitialise, reinitialise_inflater, resets_in_place}
use ws_pmd_rs.Codec.Step.{judge, consumed_by, produced_by, step}
use ws_pmd_rs.Codec.Inflate.{writable, note_stream, extend, take_in, round, run, inflate}
use ws_pmd_rs.Codec.Decompress.{decode, Decompressed, decompress}
use ws_pmd_rs.Codec.Delivered.{Returned, decompress-total}
use ws_pmd_rs.Negotiated.{Negotiated, client}
use ws_pmd_rs.Codec.NoPanic.{IsBuildable}
use ws_pmd_rs.Codec.Sound.{decompress-NoPanic}
use ws_pmd_rs.Codec.Message.{
  decompress-Returned, decompress-poisoned, Fragments, none_yet, fragment, message_fits,
}

-- A state counts the bytes that went through, which are the same on both sides.
pub copied :
    (input buffer : Bytes)
    → length (take (length buffer) input ++ drop (length input) buffer) ≡ length buffer
copied input buffer = omega (
  arith,
  length-append (take (length buffer) input) (drop (length input) buffer),
  length-take (length buffer) input,
  length-drop (length input) buffer,
)

abbrev start_at : ℕ → Option ℕ
start_at bits = if within 9 15 bits then some 0 else none

pub built : (bits : ℕ) → 9 ≤ bits → bits ≤ 15 → start_at bits ≡ some 0
built bits lo hi = ground arith

abbrev pub copying : Backend
copying = record {
  Decompress = ℕ;
  new_with_window_bits = λ z bits. start_at bits;
  reset = λ i z. 0;
  total_in = λ i. i;
  total_out = λ i. i;
  state_after = λ i input buffer. i + min (length input) (length buffer);
  buffer_after = λ i input buffer. take (length buffer) input ++ drop (length input) buffer;
  status_of = λ i input buffer. some status_ok;
  buffer_length = λ i input buffer. copied input buffer;
  builds = λ z bits lo hi. (0, built bits lo hi);
}

abbrev fresh : Decoder copying
fresh = record {
  config = record { zlib_header = false; window_bits = 15 };
  inflater = 0;
  reset_between_messages = true;
  stream_open = false;
  delivered = 0;
  poisoned = false;
}

abbrev opened : Decoder copying
opened = record fresh { inflater = 3; stream_open = true; delivered = 3 }

abbrev first : Decompressed copying 10
first = record { decoder = opened; result = ok (1 ∷ 2 ∷ 3 ∷ []) }

first_call : decompress copying 10 fresh (1 ∷ 2 ∷ 3 ∷ []) false ≡ some first
unfolding decompress decode inflate run round extend take_in note_stream writable step judge
    consumed_by produced_by advance
first_call = refl

decompress-total_example :
    (r : Decompressed copying 10) × (decompress copying 10 fresh (1 ∷ []) true ≡ some r)
decompress-total_example = decompress-total copying 10 (omega arith) fresh (1 ∷ []) true

decompress-Returned_example : Returned copying 10 fresh false (1 ∷ 2 ∷ 3 ∷ []) opened
decompress-Returned_example =
    decompress-Returned copying 10 fresh (1 ∷ 2 ∷ 3 ∷ []) false (omega arith) first_call refl

-- With a limit of 2 the third byte is too many.
abbrev refused : Decompressed copying 2
refused = record {
  decoder = record fresh { inflater = 3; poisoned = true };
  result = err (message_too_long 3 2);
}

refused_call : decompress copying 2 fresh (1 ∷ 2 ∷ 3 ∷ 4 ∷ []) false ≡ some refused
unfolding decompress decode inflate run round extend take_in note_stream writable step judge
    consumed_by produced_by advance
refused_call = refl

decompress-poisoned_example :
    decompress copying 100 refused.decoder (5 ∷ []) true
    ≡ some (record { decoder = refused.decoder; result = err poisoned })
decompress-poisoned_example =
    decompress-poisoned copying 2 100 fresh (1 ∷ 2 ∷ 3 ∷ 4 ∷ []) (5 ∷ []) false true refused_call
      refl

one_fragment : Fragments copying fresh 3 opened
one_fragment =
    fragment 10 (1 ∷ 2 ∷ 3 ∷ []) (1 ∷ 2 ∷ 3 ∷ []) first (omega arith) (none_yet refl refl)
      first_call refl refl refl

-- The backend copies the trailer too.
abbrev last : Decompressed copying 12
last = record { decoder = record fresh { inflater = 0 }; result = ok (7 ∷ 0 ∷ 0 ∷ 255 ∷ 255 ∷ []) }

last_call : decompress copying 12 opened (7 ∷ []) true ≡ some last
unfolding decompress decode inflate run round extend take_in note_stream writable step judge
    consumed_by produced_by advance reinitialise reinitialise_inflater resets_in_place
last_call = refl

message_fits_example : (3 + 5 ≤ 12) × (last.decoder.delivered ≡ 0)
message_fits_example =
    message_fits copying 12 (7 ∷ []) (7 ∷ 0 ∷ 0 ∷ 255 ∷ 255 ∷ []) (omega arith) refl one_fragment
      last_call refl

fresh-IsBuildable : IsBuildable fresh.config
fresh-IsBuildable = ground arith

decompress-NoPanic_example :
    (r : Decompressed copying 10) × (decompress copying 10 fresh (1 ∷ 2 ∷ 3 ∷ []) false ≡ some r)
    × (r.result ≢ panic)
decompress-NoPanic_example =
    decompress-NoPanic copying 10 (omega arith) fresh (1 ∷ 2 ∷ 3 ∷ []) false fresh-IsBuildable

-- A peer that is held to a window of 8.
abbrev narrow : Negotiated
narrow = record {
  role = client;
  server_no_context_takeover = true;
  client_no_context_takeover = false;
  server_max_window_bits = 8;
  client_max_window_bits = 15;
}
