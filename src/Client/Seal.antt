-- ===== src/Client/Seal.antt =====
-- Proofs about `ClientOffer::seal` of src/client.rs.
use ws_pmd_rs.Base.{
  ℕ, ◌+◌, ◌≡◌, ◌↔◌, refl, ap, ◌∙◌, sym, true, List, [], ◌∷◌, Bytes, some, ◌==◌, arith, length, ok,
  guard, >>=-eq-ok, guard-eq-ok, ok-injective,
}
use ws_pmd_rs.Error.{offer_altered}
use ws_pmd_rs.Http.{Http, lines}
use ws_pmd_rs.Config.{ClientConfig}
use ws_pmd_rs.Grammar.Trim.{trim}
use ws_pmd_rs.Grammar.Deflate.{deflate_elements}
use ws_pmd_rs.Negotiated.Render.Ends.{trim-render_string}
use ws_pmd_rs.Client.{ClientOffer, ClientHandshake, server_bits_of, client_bits_of, seal}
use ws_pmd_rs.Client.Offer.{Installed, offer_text}
use ws_pmd_rs.Client.Scan.{count_written}
use ws_pmd_rs.Client.Scan.Correct.{count_written-Counted, count_written-AllWritten}

module _ (H : Http) (offer : ClientOffer H) (headers : H.HeaderMap) where
  abbrev pub sealed_handshake : ClientHandshake H
  sealed_handshake = record {
    offer = some (record { config = offer.config; sealed = offer.installed });
  }

  -- The field has one `permessage-deflate` element, and it is the installed one but for white
  -- space around it.
  abbrev pub HasInstalled : Type 0
  HasInstalled =
      (e : Bytes) × (deflate_elements (lines H headers) ≡ ok (e ∷ []))
      × (trim e ≡ H.as_bytes offer.installed)

  one_of :
      (ds : List Bytes) {m : ℕ} → (m == 1) ≡ true → m ≡ 0 + length ds → (e : Bytes) × (ds ≡ e ∷ [])
  one_of [] h k = ground arith
  one_of (e ∷ []) h k = (e, refl)
  one_of (e ∷ f ∷ ds) h k = ground arith

  sealed-HasInstalled :
      {h : ClientHandshake H} → seal H offer headers ≡ ok h → (h ≡ sealed_handshake) × HasInstalled
  unfolding seal
  sealed-HasInstalled {h} s =
      let (n, counted, k) =
        >>=-eq-ok (count_written offer_altered (H.as_bytes offer.installed) (lines H headers) 0) _
          {result = h} s in
      let (u, one, done) = >>=-eq-ok (guard (n == 1) offer_altered) _ {result = h} k in
      let c =
        count_written-Counted offer_altered (H.as_bytes offer.installed) (lines H headers) 0
          counted in
      let (e, is_one) = one_of c.ds (guard-eq-ok (n == 1) offer_altered one) c.total in
      (sym (ok-injective done), (e, c.listed ∙ ap ok is_one, (rw is_one at c.same).0))

  HasInstalled-sealed : HasInstalled → seal H offer headers ≡ ok sealed_handshake
  unfolding seal
  HasInstalled-sealed (e, listed, same) =
      rw
        (count_written-AllWritten offer_altered (H.as_bytes offer.installed) (lines H headers) 0
          listed (same, tt))
        refl

  -- `seal` succeeds exactly where the whole field has one `permessage-deflate` element and that
  -- element, trimmed, is the installed value; the one handshake that it makes carries the
  -- configuration and the value of the offer.
  pub seal_iff :
      (h : ClientHandshake H)
      → (seal H offer headers ≡ ok h) ↔ ((h ≡ sealed_handshake) × HasInstalled)
  seal_iff h = (sealed-HasInstalled, λ (e, i). HasInstalled-sealed i ∙ ap ok (sym e))

-- A request that `install` accepted is sealed as it stands.
pub install-seal :
    (H : Http) (c : ClientConfig) (headers after : H.HeaderMap) (offer : ClientOffer H)
    → Installed H c headers offer after
    → seal H offer after ≡ ok (sealed_handshake H offer after)
install-seal H c headers after offer i = HasInstalled-sealed H offer after (
  offer_text c,
  i.sole_after,
  trim-render_string c.server_no_context_takeover c.client_no_context_takeover (server_bits_of c)
        (client_bits_of c)
      ∙ sym i.text,
)
