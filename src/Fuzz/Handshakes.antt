-- ===== src/Fuzz/Handshakes.antt =====
-- fuzz/fuzz_targets/client_finish.rs and server_accept.rs: the targets. What they do not look at
-- they drop, so a target ends well or panics.
pub mod Holds
use ws_pmd_rs.Base.{
  ℕ, Bool, ◌%◌, ◌==◌, [], ◌∷◌, Bytes, Option, none, some, if◌then◌else◌, Outcome, ok, err, panic,
  ◌>>=◌,
}
use ws_pmd_rs.Error.{CodecError}
use ws_pmd_rs.Http.{Http}
use ws_pmd_rs.Config.Server as ServerConfig
use ws_pmd_rs.Negotiated.{PmdComposition, compatible, conflict}
use ws_pmd_rs.Client
use ws_pmd_rs.Server.{accept}
use ws_pmd_rs.Fuzz.Fields.{Fields, split_nul, append_lines, sealed_client}

-- `let _ = result`, which drops an error
abbrev pub dropped {ℓ} : {E : Type 0} {A : Type ℓ} → Outcome E A → Outcome CodecError (Unit {0})
dropped (ok a) = ok tt
dropped (err e) = ok tt
dropped panic = panic

-- The first byte of the input picks the composition.
abbrev pub composition_of : ℕ → PmdComposition
composition_of tag = if tag % 2 == 0 then compatible else conflict

module _ (H : Http) (F : Fields H) where
  unfoldable pub client_finish_target : Bytes → Outcome CodecError (Unit {0})
  client_finish_target [] = ok tt
  client_finish_target (tag ∷ body) = do
    handshake ← sealed_client H F
    dropped
        (Client.finish H handshake (append_lines H F F.empty (split_nul body)) (composition_of tag))

  -- `handshake.value()` reads a field, which nothing can go wrong with.
  unfoldable pub server_accept_target : Bytes → Outcome CodecError (Unit {0})
  server_accept_target input =
      dropped (accept H ServerConfig.new (append_lines H F F.empty (split_nul input)))
