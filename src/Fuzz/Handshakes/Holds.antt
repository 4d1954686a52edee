-- ===== src/Fuzz/Handshakes/Holds.antt =====
-- Proofs about the handshake targets of fuzz/: they never panic.
use ws_pmd_rs.Base.{◌≡◌, ◌≢◌, refl, [], ◌∷◌, Bytes, Outcome, ok, err, panic}
use ws_pmd_rs.Http.{Http}
use ws_pmd_rs.Config.Server as ServerConfig
use ws_pmd_rs.Config.Server.Valid.{IsValid, fresh, built_server-IsValid}
use ws_pmd_rs.Client.NoPanic.{client_finish-NoPanic}
use ws_pmd_rs.Server.NoPanic.{accept-NoPanic}
use ws_pmd_rs.Fuzz.Fields.{Fields, split_nul, append_lines}
use ws_pmd_rs.Fuzz.Fields.Sealed.{sealed_client-total}
use ws_pmd_rs.Fuzz.Handshakes.{dropped, composition_of, client_finish_target, server_accept_target}

new-IsValid : IsValid ServerConfig.new
new-IsValid = built_server-IsValid (fresh refl)

dropped-ok {ℓ} : {E : Type 0} {A : Type ℓ} (m : Outcome E A) → m ≢ panic → dropped m ≡ ok tt
dropped-ok (ok a) h = refl
dropped-ok (err e) h = refl
dropped-ok panic h = absurd (h refl)

module _ (H : Http) (F : Fields H) where
  -- On every input the client's target installs and seals its offer and ends without a panic.
  client_finish_target-Holds : (input : Bytes) → client_finish_target H F input ≡ ok tt
  unfolding client_finish_target
  client_finish_target-Holds [] = refl
  client_finish_target-Holds (tag ∷ body) =
      let (half, sealed, d) = sealed_client-total H F in
      rw sealed (
        dropped-ok _ (
          client_finish-NoPanic H half (append_lines H F F.empty (split_nul body))
            (composition_of tag)))

  -- On every input the server's target ends without a panic.
  server_accept_target-Holds : (input : Bytes) → server_accept_target H F input ≡ ok tt
  unfolding server_accept_target
  server_accept_target-Holds input =
      dropped-ok _
        (accept-NoPanic H ServerConfig.new new-IsValid (append_lines H F F.empty (split_nul input)))
