-- ===== src/Loopback/Connection.antt =====
-- A connection: the handshake of src/client.rs with src/server.rs, `into_codecs` of src/codec.rs at
-- both ends, and the messages that go both ways.
use ws_pmd_rs.Http.{Http}
use ws_pmd_rs.Negotiated.{Negotiated}
use ws_pmd_rs.Client
use ws_pmd_rs.Server
use ws_pmd_rs.Codec.Backend as Inflate
use ws_pmd_rs.Encoder.Backend as Deflate
use ws_pmd_rs.Encoder.Bounded.{Bounded}
use ws_pmd_rs.Handshake.Codecs.{Codecs}
use ws_pmd_rs.Loopback.Format.{Format}
