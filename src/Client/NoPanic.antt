-- ===== src/Client/NoPanic.antt =====
-- Proofs about `ClientHandshake::finish` of src/client.rs, on any response.
use ws_pmd_rs.Base.{
  ℕ, not, ◌&&◌, [], ◌∷◌, List, Bytes, Option, none, some, ltb, if◌then◌else◌, Bool, ok, ◌>>=◌,
  guard,
}
use ws_pmd_rs.Error.{server_takeover_not_honoured}
use ws_pmd_rs.Http.{Http, lines}
use ws_pmd_rs.Config.{ClientConfig}
use ws_pmd_rs.Grammar.Split.{elements}
use ws_pmd_rs.Grammar.Trim.{is_blank}
use ws_pmd_rs.Grammar.Params.{Params, ClientWindow, absent, valueless, bits, parse_params}
use ws_pmd_rs.Grammar.Validate.{validate}
use ws_pmd_rs.Grammar.NoPanic.{
  NoPanic, >>=-NoPanic, if-NoPanic, guard-NoPanic, elements-NoPanic, parse_params-NoPanic,
}
use ws_pmd_rs.Grammar.NoPanic.Field.{is_deflate-NoPanic, validate-NoPanic}
use ws_pmd_rs.Negotiated.{PmdComposition, compatible, conflict}
use ws_pmd_rs.Client.{SealedOffer, ClientHandshake, finish_selected, finish}
use ws_pmd_rs.Client.Agree.{server_window, client_window, agree}
use ws_pmd_rs.Client.Scan.{is_candidate, select_once, sole_in, sole_deflate}

server_window-NoPanic : (offered : ℕ) (given : Option ℕ) → NoPanic (server_window offered given)
unfolding server_window
server_window-NoPanic offered none = if-NoPanic (ltb offered 15) (λ q. cc) (λ q. cc)
server_window-NoPanic offered (some b) = if-NoPanic (ltb offered b) (λ q. cc) (λ q. cc)

client_window-NoPanic : (offered : ℕ) (w : ClientWindow) → NoPanic (client_window offered w)
unfolding client_window
client_window-NoPanic offered absent = λ q. cc
client_window-NoPanic offered valueless = λ q. cc
client_window-NoPanic offered (bits b) = if-NoPanic (ltb b 9) (λ q. cc) (λ q. cc)

agree-NoPanic : (c : ClientConfig) (p : Params) → NoPanic (agree c p)
unfolding agree
agree-NoPanic c p =
    >>=-NoPanic
      (guard (not (c.server_no_context_takeover && not p.server_no_context_takeover))
        server_takeover_not_honoured)
      _ (guard-NoPanic (not (c.server_no_context_takeover && not p.server_no_context_takeover)) _)
      (λ u.
        >>=-NoPanic (server_window c.server_max_window_bits p.server_max_window_bits) _
          (server_window-NoPanic c.server_max_window_bits p.server_max_window_bits)
          (λ s.
            >>=-NoPanic (client_window c.client_max_window_bits p.client_max_window_bits) _
              (client_window-NoPanic c.client_max_window_bits p.client_max_window_bits)
              (λ w q. cc)))

is_candidate-NoPanic : (e : Bytes) → NoPanic (is_candidate e)
unfolding is_candidate
is_candidate-NoPanic e = if-NoPanic (is_blank e) (λ q. cc) (is_deflate-NoPanic e)

select_once-NoPanic : (s : Option Params) (p : Params) → NoPanic (select_once s p)
select_once-NoPanic none p = λ q. cc
select_once-NoPanic (some o) p = λ q. cc

read-NoPanic :
    (candidate : Bool) (e : Bytes) (s : Option Params)
    → NoPanic (if candidate then (do p ← parse_params e; select_once s p) else ok s)
read-NoPanic candidate e s =
    if-NoPanic candidate
      (>>=-NoPanic (parse_params e) _ (parse_params-NoPanic e) (λ p. select_once-NoPanic s p))
      (λ q. cc)

sole_in-NoPanic : (es : List Bytes) (s : Option Params) → NoPanic (sole_in es s)
unfolding sole_in
sole_in-NoPanic [] s = λ q. cc
sole_in-NoPanic (e ∷ es) s =
    >>=-NoPanic (is_candidate e) _ (is_candidate-NoPanic e)
      (λ c. >>=-NoPanic _ (sole_in es) (read-NoPanic c e s) (λ n. sole_in-NoPanic es n))

sole_deflate-NoPanic : (ls : List Bytes) (s : Option Params) → NoPanic (sole_deflate ls s)
unfolding sole_deflate
sole_deflate-NoPanic [] s = λ q. cc
sole_deflate-NoPanic (l ∷ ls) s =
    >>=-NoPanic (elements l) _ (elements-NoPanic l)
      (λ es. >>=-NoPanic (sole_in es s) _ (sole_in-NoPanic es s) (λ n. sole_deflate-NoPanic ls n))

module _ (H : Http) where
  finish_selected-NoPanic :
      (o : Option (SealedOffer H)) (composition : PmdComposition) (s : Option Params)
      → NoPanic (finish_selected H o composition s)
  unfolding finish_selected
  finish_selected-NoPanic o composition none = λ q. cc
  finish_selected-NoPanic none composition (some p) = λ q. cc
  finish_selected-NoPanic (some o) conflict (some p) = λ q. cc
  finish_selected-NoPanic (some o) compatible (some p) =
      >>=-NoPanic (agree o.config p) _ (agree-NoPanic o.config p) (λ n q. cc)

  -- On any response the client's `finish` returns or fails, and never panics.
  pub client_finish-NoPanic :
      (h : ClientHandshake H) (headers : H.HeaderMap) (composition : PmdComposition)
      → NoPanic (finish H h headers composition)
  unfolding finish
  client_finish-NoPanic h headers composition =
      >>=-NoPanic (validate (lines H headers)) _ (validate-NoPanic (lines H headers)) (λ u.
        >>=-NoPanic (sole_deflate (lines H headers) none) _
          (sole_deflate-NoPanic (lines H headers) none)
          (λ s. finish_selected-NoPanic h.offer composition s))
