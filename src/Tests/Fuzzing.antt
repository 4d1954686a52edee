-- ===== src/Tests/Fuzzing.antt =====
-- The theorems on fuzz/ and on the codecs of an agreement, at concrete inputs.
use ws_pmd_rs.Base.{◌≡◌, refl, true, [], ◌∷◌, ◌++◌, any, ◌==◌, if◌then◌else◌, none, some, arith, ok}
use ws_pmd_rs.Handshake.Codecs.{Codecs}
use ws_pmd_rs.Handshake.Minted.{Minted}
use ws_pmd_rs.Fuzz.Fragments.{Fragment, ceiling, fragment_of, records, fragments}
use ws_pmd_rs.Fuzz.Fragments.Correct.{encode_all, fragments-encode}
use ws_pmd_rs.Fuzz.Fields.{Fields, split_nul, append_lines}
use ws_pmd_rs.Fuzz.Decoder.{decoder_target}
use ws_pmd_rs.Fuzz.Decoder.Target.{decoder_target-Holds}
use ws_pmd_rs.Tests.Wires.{plain}
use ws_pmd_rs.Tests.Decoding.{copying}
use ws_pmd_rs.Tests.Streams.{queue}

abbrev lists : Fields plain
lists = record { empty = []; get_all-empty = refl; from_bytes = λ b. some b }

abbrev hello : Fragment
hello = record { bytes = 65 ∷ 66 ∷ []; final_fragment = true; limit = 70000 }

fragments-encode_example : fragments (encode_all (hello ∷ []) ++ 9 ∷ 9 ∷ []) ≡ some (hello ∷ [])
fragments-encode_example =
    fragments-encode (hello ∷ []) (9 ∷ 9 ∷ [])
      (record { bounded = omega arith; short = omega arith }, tt) (omega arith)

-- A record that says more than it has is clamped.
clamped :
    fragments (1 ∷ 0 ∷ 0 ∷ 16 ∷ 255 ∷ 255 ∷ 170 ∷ 187 ∷ 204 ∷ [])
    ≡ some (record { bytes = 170 ∷ 187 ∷ 204 ∷ []; final_fragment = true; limit = 16 } ∷ [])
unfolding fragments records fragment_of ceiling
clamped = refl

decoder_target-Holds_example :
    decoder_target copying plain lists queue 6 (1 ∷ 0 ∷ 0 ∷ 16 ∷ 255 ∷ 255 ∷ 170 ∷ 187 ∷ 204 ∷ [])
    ≡ some (ok tt)
decoder_target-Holds_example =
    decoder_target-Holds plain lists queue copying 6
      (1 ∷ 0 ∷ 0 ∷ 16 ∷ 255 ∷ 255 ∷ 170 ∷ 187 ∷ 204 ∷ [])

-- Values are what has no comma in it.
abbrev no_comma : Fields plain
no_comma = record {
  empty = [];
  get_all-empty = refl;
  from_bytes = λ b. if any (λ c. c == b',') b then none else some b;
}

three_pieces :
    append_lines plain no_comma [] (split_nul (112 ∷ 0 ∷ 44 ∷ 0 ∷ 113 ∷ []))
    ≡ (112 ∷ []) ∷ (113 ∷ []) ∷ []
unfolding append_lines split_nul
three_pieces = refl
