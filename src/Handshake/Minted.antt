-- ===== src/Handshake/Minted.antt =====
-- Proofs about the agreements that the two handshakes can make.
pub mod Agreed
use ws_pmd_rs.Base.{
  ℕ, zero, suc, ◌≤◌, ◌≡◌, refl, ap, ◌∙◌, sym, Bool, true, false, Bytes, Option, none, some, inl,
  inr, some-injective, arith, if◌then◌else◌, within, Outcome, ok, >>=-eq-ok, ok-injective, not,
  guard,
}
use ws_pmd_rs.Error.{response_altered, offer_collision}
use ws_pmd_rs.Http.{Http, lines}
use ws_pmd_rs.Config.{ClientConfig, ServerConfig, EncoderConfig}
use ws_pmd_rs.Config.Client.Valid.{IsValid as ClientIsValid}
use ws_pmd_rs.Config.Server.Valid.{IsValid as ServerIsValid}
use ws_pmd_rs.Grammar.Params.{Params, parse_params}
use ws_pmd_rs.Grammar.Params.Bounds.{parse_params-InRange}
use ws_pmd_rs.Grammar.Validate.{validate}
use ws_pmd_rs.Grammar.Validate.Correct.{validate-HasElements}
use ws_pmd_rs.Negotiated.{
  Negotiated, PmdComposition, compatible, conflict, local_max_window_bits, peer_max_window_bits,
  local_no_context_takeover,
}
use ws_pmd_rs.Client
use ws_pmd_rs.Client.{ClientOffer, ClientHandshake, render_offer, install, seal}
use ws_pmd_rs.Client.Agree.{agree}
use ws_pmd_rs.Client.Agree.Correct.{agree_iff, agree-WithinOffer}
use ws_pmd_rs.Client.Scan.{contains_deflate, count_written}
use ws_pmd_rs.Client.Scan.Sole.{sole_deflate-sole_of}
use ws_pmd_rs.Client.Seal.{seal_iff}
use ws_pmd_rs.Client.Finish.{client_finish_iff}
use ws_pmd_rs.Server
use ws_pmd_rs.Server.{accept, resolve}
use ws_pmd_rs.Server.Select.{ServerHandshake}
use ws_pmd_rs.Server.Select.Correct.{settled, Supportable, Supportable-Sound}
use ws_pmd_rs.Server.Accept.{Served, accept-Answer}
use ws_pmd_rs.Codec.Backend as Inflate
use ws_pmd_rs.Codec.Sound.{Ready, decoder_for-Ready}
use ws_pmd_rs.Encoder.Backend as Deflate
use ws_pmd_rs.Encoder.Transaction.{build, for_local, for_agreement}
use ws_pmd_rs.Handshake.Codecs.{Codecs, into_codecs}

-- The windows of an agreement: this side can build a compressor for its own.
pub record AgreedRange (n : Negotiated) : Type 0 where
  pub local_floor : 9 ≤ local_max_window_bits n
  pub local_ceiling : local_max_window_bits n ≤ 15
  pub peer_floor : 8 ≤ peer_max_window_bits n
  pub peer_ceiling : peer_max_window_bits n ≤ 15

module _ (H : Http) where
  -- The two ways to an agreement. The host may do to the fields what it wants between the calls.
  pub data Minted (n : Negotiated) : Type 0 where
    by_client :
        (c : ClientConfig) (request installed sent response : H.HeaderMap) (offer : ClientOffer H)
        (half : ClientHandshake H) (composition : PmdComposition)
        → ClientIsValid c
        → install H c request ≡ ok (offer, installed)
        → seal H offer sent ≡ ok half
        → Client.finish H half response composition ≡ ok (some n)
        → Minted n
    by_server :
        (s : ServerConfig) (request response : H.HeaderMap) (half : ServerHandshake H)
        (composition : PmdComposition)
        → ServerIsValid s
        → accept H s request ≡ ok (some half)
        → Server.finish H half response composition ≡ ok (some n)
        → Minted n

  install-config :
      (c : ClientConfig) (request : H.HeaderMap) {offer : ClientOffer H} {after : H.HeaderMap}
      → install H c request ≡ ok (offer, after)
      → offer.config ≡ c
  unfolding install
  install-config c request {offer} {after} h =
      let (t, ht, j) =
        >>=-eq-ok (contains_deflate (lines H request)) _ {result = (offer, after)} h in
      let (u, hu, k) = >>=-eq-ok (guard (not t) offer_collision) _ {result = (offer, after)} j in
      let (v, hv, m) = >>=-eq-ok (render_offer H c) _ {result = (offer, after)} k in
      sym (ap (λ (p : ClientOffer H × H.HeaderMap). p.0.config) (ok-injective m))

  pub client-AgreedRange :
      (c : ClientConfig) (p : Params) {n : Negotiated}
      → ClientIsValid c
      → (element : Bytes) → parse_params element ≡ ok p
      → agree c p ≡ ok n
      → AgreedRange n
  unfolding local_max_window_bits peer_max_window_bits
  client-AgreedRange c p {n} v element read h =
      let w = agree-WithinOffer c p v (parse_params-InRange element read) h in
      let role = ap (λ n. n.role) ((agree_iff c v p n).0 h).1 in
      rw role (record {
        local_floor = w.client_floor;
        local_ceiling = omega (arith, w.client_offered, v.client_ceiling);
        peer_floor = w.server_floor;
        peer_ceiling = omega (arith, w.server_offered, v.server_ceiling);
      })

  finish-validated :
      (half : ClientHandshake H) (response : H.HeaderMap) (composition : PmdComposition)
      {n : Negotiated}
      → Client.finish H half response composition ≡ ok (some n)
      → validate (lines H response) ≡ ok tt
  unfolding Client.finish
  finish-validated half response composition {n} h =
      let (u, hu, j) = >>=-eq-ok (validate (lines H response)) _ {result = some n} h in hu

  client_finish-AgreedRange :
      (half : ClientHandshake H) (c : ClientConfig) (v : H.HeaderValue) (response : H.HeaderMap)
      (composition : PmdComposition) {n : Negotiated}
      → ClientIsValid c
      → half ≡ record { offer = some (record { config = c; sealed = v }) }
      → Client.finish H half response composition ≡ ok (some n)
      → AgreedRange n
  client_finish-AgreedRange half c v response composition {n} valid sealed h =
      let checked = finish-validated half response composition h in
      let (ds, listed, _a) =
        sole_deflate-sole_of (lines H response) (validate-HasElements (lines H response) checked) in
      let a = (client_finish_iff H half response composition ds checked listed (some n)).0 h in
      let same =
        ap (λ o. o.config)
          (some-injective (sym (ap (λ (h : ClientHandshake H). h.offer) sealed) ∙ a.offered)) in
      client-AgreedRange a.offer.config a.params (rw same at valid) a.element a.read a.agrees

  resolve-agreement :
      (agreement : Negotiated) (found : ℕ) (composition : PmdComposition) {n : Negotiated}
      → resolve H agreement found composition ≡ ok (some n)
      → n ≡ agreement
  unfolding resolve
  resolve-agreement a zero composition h = cc
  resolve-agreement a (suc zero) conflict h = cc
  resolve-agreement a (suc zero) compatible h = sym (some-injective (ok-injective h))
  resolve-agreement a (suc (suc k)) composition h = cc

  server_finish-agreement :
      (half : ServerHandshake H) (response : H.HeaderMap) (composition : PmdComposition)
      {n : Negotiated}
      → Server.finish H half response composition ≡ ok (some n)
      → n ≡ half.agreement
  unfolding Server.finish
  server_finish-agreement half response composition {n} h =
      let (u, hu, j) = >>=-eq-ok (validate (lines H response)) _ {result = some n} h in
      let (m, hm, r) =
        >>=-eq-ok (count_written response_altered (H.as_bytes half.proposed) (lines H response) 0) _
          {result = some n} j in
      resolve-agreement half.agreement m composition r

  settled-AgreedRange :
      (s : ServerConfig) (p : Params)
      → ServerIsValid s
      → (element : Bytes) → parse_params element ≡ ok p
      → Supportable s p
      → AgreedRange (settled s p)
  unfolding local_max_window_bits peer_max_window_bits
  settled-AgreedRange s p v element read u =
      let sound = Supportable-Sound s p v (parse_params-InRange element read) u in
      record {
        local_floor = sound.server_floor;
        local_ceiling = omega (arith, v.server_ceiling);
        peer_floor = sound.client_floor;
        peer_ceiling = omega (arith, v.client_ceiling);
      }

  accept-validated :
      (s : ServerConfig) (request : H.HeaderMap) {half : ServerHandshake H}
      → accept H s request ≡ ok (some half)
      → validate (lines H request) ≡ ok tt
  unfolding accept
  accept-validated s request {half} h =
      let (u, hu, j) = >>=-eq-ok (validate (lines H request)) _ {result = some half} h in hu

  accept-AgreedRange :
      (s : ServerConfig) (request : H.HeaderMap) {half : ServerHandshake H}
      → ServerIsValid s
      → accept H s request ≡ ok (some half)
      → AgreedRange half.agreement
  accept-AgreedRange s request {half} v h =
      let (ds, listed, answer) = accept-Answer H s v request (accept-validated s request h) in
      elim answer [
        | inl (other, a, served) ↦
            let same = some-injective (ok-injective (sym a ∙ h)) in
            rw (← same, served.proposed.agreement)
              (settled-AgreedRange s served.offer v served.element served.read served.supportable)
        | inr (a, passed) ↦ cc (sym a ∙ h)
      ]

  -- Every agreement that either handshake can make, for a valid configuration and whatever the host
  -- does to the fields, has windows that both codecs can be built for.
  pub Minted-AgreedRange : {n : Negotiated} → Minted n → AgreedRange n
  Minted-AgreedRange
        (by_client c request installed sent response offer half composition v made sealed agreed) =
      let (is_sealed, there) = (seal_iff H offer sent half).0 sealed in
      client_finish-AgreedRange half offer.config offer.installed response composition
        (rw (install-config c request made) v) is_sealed agreed
  Minted-AgreedRange (by_server s request response half composition v accepted agreed) =
      rw (server_finish-agreement half response composition agreed)
        (accept-AgreedRange s request v accepted)
