-- ===== src/Tests/Connected.antt =====
-- A connection: a handshake, and messages both ways in the format of the marks.
use ws_pmd_rs.Base.{ℕ, true, false, List, [], ◌∷◌, some, arith}
use ws_pmd_rs.Codec.Inflater as Inflater
use ws_pmd_rs.Encoder.Transaction as Transaction
use ws_pmd_rs.Handshake.Codecs.{Codecs}
use ws_pmd_rs.Handshake.Agreement.{Completed, handshake-Completed}
use ws_pmd_rs.Tests.Wires.{
  plain as wires, client_12, server_10, client_12-IsValid, server_10-IsValid, other,
}
use ws_pmd_rs.Tests.Handshakes.{other-IsClear, nothing-IsClear}
use ws_pmd_rs.Loopback.Hosts.{compressed, plain, Frame}
use ws_pmd_rs.Tests.Marks.{blank, marking}
use ws_pmd_rs.Tests.Reading.{reading}

abbrev completed : Completed wires client_12 server_10 other []
completed =
    handshake-Completed wires client_12 server_10 other [] client_12-IsValid server_10-IsValid
      (ground arith) (ground arith) other-IsClear nothing-IsClear

-- The codecs of an end, which compresses with so many bits and inflates with so many.
abbrev resetting : ℕ → ℕ → Codecs marking reading
resetting compressed_bits inflated_bits = record {
  encoder = record { compressor = some (blank compressed_bits); reset_between_messages = true };
  decoder = record {
    config = record { zlib_header = false; window_bits = inflated_bits };
    inflater = (inflated_bits, [], []);
    reset_between_messages = true;
    stream_open = false;
    delivered = 0;
    poisoned = false;
  };
}

abbrev asked : List Frame
asked = compressed (record { payload = 5 ∷ []; last = true }) ∷ plain (9 ∷ []) ∷ []

abbrev asked_frames : List Frame
asked_frames = compressed (record { payload = 1 ∷ 5 ∷ 0 ∷ []; last = true }) ∷ plain (9 ∷ []) ∷ []

abbrev told : List Frame
told =
    compressed (record { payload = 7 ∷ []; last = false })
    ∷ compressed (record { payload = 8 ∷ []; last = true })
    ∷ []

abbrev told_frames : List Frame
told_frames =
    compressed (record { payload = 1 ∷ 7 ∷ 0 ∷ 0 ∷ 0 ∷ 255 ∷ 255 ∷ []; last = false })
    ∷ compressed (record { payload = 1 ∷ 8 ∷ 0 ∷ []; last = true })
    ∷ []
