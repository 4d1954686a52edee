-- ===== src/Handshake/Agreement.antt =====
-- The whole handshake of src/client.rs with src/server.rs.
use ws_pmd_rs.Base.{◌≡◌, ◌≢◌, refl, ap, ◌∙◌, sym, some, ok}
use ws_pmd_rs.Http.{Http, lines}
use ws_pmd_rs.Config.{ClientConfig, ServerConfig}
use ws_pmd_rs.Config.Client.Valid.{IsValid as ClientIsValid}
use ws_pmd_rs.Config.Server.Valid.{IsValid as ServerIsValid}
use ws_pmd_rs.Grammar.Params.{parse_params}
use ws_pmd_rs.Negotiated.{client, server, compatible}
use ws_pmd_rs.Negotiated.Render.RoundTrip.{parse_params-render_string}
use ws_pmd_rs.Negotiated.Render.Ends.{trim-render_string}
use ws_pmd_rs.Client
use ws_pmd_rs.Client.{ClientOffer, ClientHandshake, server_bits_of, client_bits_of, install, seal}
use ws_pmd_rs.Client.Offer.{
  Installed, install-Installed, offer_text, server_bits_of-InRange, client_bits_of-InRange,
}
use ws_pmd_rs.Client.Seal.{sealed_handshake, install-seal}
use ws_pmd_rs.Client.Scan.Contains.{false-contains_deflate}
use ws_pmd_rs.Server
use ws_pmd_rs.Server.{accept}
use ws_pmd_rs.Server.Select.{ServerHandshake, echoed}
use ws_pmd_rs.Server.Select.Correct.{choice, Supportable-Sound}
use ws_pmd_rs.Server.Select.Proposal.{Proposed, proposal_text, reply}
use ws_pmd_rs.Handshake.Values.{
  offered, common, offered-InRange, offered-Supportable, settled-common, agree-common,
}
use ws_pmd_rs.Handshake.Carried.{IsClear, Carries, append-Carries}
use ws_pmd_rs.Handshake.Wire.{accept-Carries, finish-Carries, sole_deflate-Carries}

module _ (H : Http) (c : ClientConfig) (s : ServerConfig) (request response : H.HeaderMap) where
  -- A handshake that goes through: the values that pass from call to call.
  pub record Completed : Type 0 where
    pub offer : ClientOffer H
    pub sent : H.HeaderMap
    pub client_half : ClientHandshake H
    pub server_half : ServerHandshake H
    pub installed : install H c request ≡ ok (offer, sent)
    pub sealed : seal H offer sent ≡ ok client_half
    pub accepted : accept H s sent ≡ ok (some server_half)
    pub server_agrees :
        Server.finish H server_half (H.append response server_half.proposed) compatible
        ≡ ok (some (common c s server))
    pub client_agrees :
        Client.finish H client_half (H.append response server_half.proposed) compatible
        ≡ ok (some (common c s client))

  module _ (vc : ClientIsValid c) (vs : ServerIsValid s) (nc : c.server_max_window_bits ≢ 8)
      (ns : s.client_max_window_bits ≢ 8) where
    offer-read : parse_params (offer_text c) ≡ ok (offered c)
    offer-read =
        parse_params-render_string c.server_no_context_takeover c.client_no_context_takeover
          (server_bits_of c) (client_bits_of c) (server_bits_of-InRange c vc)
          (client_bits_of-InRange c vc)

    sent-Carries :
        (offer : ClientOffer H) (after : H.HeaderMap)
        → IsClear H request
        → Installed H c request offer after
        → Carries H after (offer_text c)
    sent-Carries offer after clear i = rw i.appended (
        append-Carries H request offer.installed c.server_no_context_takeover
          c.client_no_context_takeover (server_bits_of c) (client_bits_of c)
          (server_bits_of-InRange c vc) (client_bits_of-InRange c vc) i.text clear)

    answered-Carries :
        (h : ServerHandshake H)
        → IsClear H response
        → Proposed H s (offered c) h
        → Carries H (H.append response h.proposed) (proposal_text s (offered c))
    answered-Carries h clear p =
        let k = choice s (offered c) in
        let sound =
          Supportable-Sound s (offered c) vs (offered-InRange c vc)
            (offered-Supportable c vc s nc) in
        append-Carries H response h.proposed k.server_takeover k.client_takeover k.server_bits
          (echoed k.client_bits) sound.server_range sound.client_range p.text clear

    client_finish :
        (o : ClientOffer H) (after : H.HeaderMap) (r : H.HeaderMap)
        → o.config ≡ c
        → Carries H r (proposal_text s (offered c))
        → parse_params (proposal_text s (offered c)) ≡ ok (reply s (offered c))
        → Client.finish H (sealed_handshake H o after) r compatible ≡ ok (some (common c s client))
    unfolding Client.finish Client.finish_selected
    client_finish o after r same carries read =
        rw
          (
            carries.accepted,
            sole_deflate-Carries H r (proposal_text s (offered c)) (reply s (offered c)) carries
                read,
            same,
            agree-common c s vc vs nc ns,
          )
          refl

    -- A client and a server of valid configurations, on a request and a response whose fields the
    -- grammar accepts and which name no permessage-deflate before: the offer is installed, sealed,
    -- and accepted, and with the proposal in the response both ends agree, and to the same terms.
    -- Each takeover is given up where either side asks for it, each window is the smaller of the
    -- two limits. The one condition is that neither side holds the other to a window of 8.
    pub handshake-Completed : IsClear H request → IsClear H response → Completed
    handshake-Completed clear clear' =
        let (o, after, made, i) =
          install-Installed H c request vc
            (false-contains_deflate (lines H request) clear.none_in) in
        let (h, accepted, p) =
          accept-Carries H s after (offer_text c) (offered c) vs (sent-Carries o after clear i)
            offer-read (offered-Supportable c vc s nc) in
        let carries = answered-Carries h clear' p in
        let k = choice s (offered c) in
        let kept =
          trim-render_string k.server_takeover k.client_takeover k.server_bits
            (echoed k.client_bits) in
        record {
          offer = o;
          sent = after;
          client_half = sealed_handshake H o after;
          server_half = h;
          installed = made;
          sealed = install-seal H c request after o i;
          accepted = accepted;
          server_agrees =
              finish-Carries H h (H.append response h.proposed) (rw p.text carries) (rw p.text kept)
              ∙ ap (λ a. ok (some a)) (p.agreement ∙ settled-common c vc s);
          client_agrees =
              client_finish o after (H.append response h.proposed) i.config_kept carries
                (sym (ap parse_params p.text) ∙ p.read_back);
        }
