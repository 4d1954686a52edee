-- ===== src/Tests/Looped.antt =====
-- A conversation of src/encoder.rs and src/codec.rs, in the format of the marks.
use ws_pmd_rs.Base.{true, false, List, [], ◌∷◌, some}
use ws_pmd_rs.Negotiated.{Negotiated, client}
use ws_pmd_rs.Codec.Inflater as Inflater
use ws_pmd_rs.Encoder.Transaction as Transaction
use ws_pmd_rs.Handshake.Codecs.{Codecs}
use ws_pmd_rs.Loopback.Hosts.{compressed, plain, Frame}
use ws_pmd_rs.Tests.Marks.{blank, marking}
use ws_pmd_rs.Tests.Reading.{reading}

abbrev keeping : Negotiated
keeping = record {
  role = client;
  server_no_context_takeover = false;
  client_no_context_takeover = false;
  server_max_window_bits = 15;
  client_max_window_bits = 10;
}

abbrev near : Codecs marking reading
near = record {
  encoder = record { compressor = some (blank 10); reset_between_messages = false };
  decoder = record {
    config = record { zlib_header = false; window_bits = 15 };
    inflater = (15, [], []);
    reset_between_messages = false;
    stream_open = false;
    delivered = 0;
    poisoned = false;
  };
}

abbrev far : Codecs marking reading
far = record {
  encoder = record { compressor = some (blank 15); reset_between_messages = false };
  decoder = record {
    config = record { zlib_header = false; window_bits = 10 };
    inflater = (10, [], []);
    reset_between_messages = false;
    stream_open = false;
    delivered = 0;
    poisoned = false;
  };
}

-- A message that is whole, one that goes out as it is, and one in three fragments, the second of
-- them empty.
abbrev messages : List Frame
messages =
    compressed (record { payload = 5 ∷ 6 ∷ []; last = true })
    ∷ plain (9 ∷ [])
    ∷ compressed (record { payload = 7 ∷ []; last = false })
    ∷ compressed (record { payload = []; last = false })
    ∷ compressed (record { payload = 8 ∷ []; last = true })
    ∷ []

-- A frame that is not the last keeps its trailer.
abbrev frames : List Frame
frames =
    compressed (record { payload = 1 ∷ 5 ∷ 1 ∷ 6 ∷ 0 ∷ []; last = true })
    ∷ plain (9 ∷ [])
    ∷ compressed (record { payload = 1 ∷ 7 ∷ 0 ∷ 0 ∷ 0 ∷ 255 ∷ 255 ∷ []; last = false })
    ∷ compressed (record { payload = 0 ∷ 0 ∷ 0 ∷ 255 ∷ 255 ∷ []; last = false })
    ∷ compressed (record { payload = 1 ∷ 8 ∷ 0 ∷ []; last = true })
    ∷ []
