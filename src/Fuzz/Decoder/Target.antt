-- ===== src/Fuzz/Decoder/Target.antt =====
-- Proofs about the decoder target of fuzz/, from its input on.
use ws_pmd_rs.Base.{ℕ, ◌≡◌, false, Bytes, some, ok}
use ws_pmd_rs.Http.{Http}
use ws_pmd_rs.Codec.Backend.{Backend}
use ws_pmd_rs.Encoder.Backend as Deflate
use ws_pmd_rs.Fuzz.Fields.{Fields}
use ws_pmd_rs.Fuzz.Fragments.Correct.{fragments-total}
use ws_pmd_rs.Fuzz.Client.Total.{client_decoder-Ready}
use ws_pmd_rs.Fuzz.Decoder.{decoder_target}
use ws_pmd_rs.Fuzz.Decoder.Holds.{probe-Holds}

-- On every input and whatever the inflater does: the target ends, and neither of its assertions
-- fails, that no message reaches past the ceiling of its call, and that an error leaves the decoder
-- poisoned.
pub decoder_target-Holds :
    (H : Http) (F : Fields H) (E : Deflate.Backend) (D : Backend) (default_level : ℕ)
    (input : Bytes)
    → decoder_target D H F E default_level input ≡ some (ok tt)
unfolding decoder_target
decoder_target-Holds H F E D default_level input =
    let (fs, read, held) = fragments-total input in
    let (d, made, ready) = client_decoder-Ready H F E D default_level in
    rw (read, made)
      (probe-Holds D fs held d 0 false (ready.sound, ready.nothing_yet, ready.buildable))
