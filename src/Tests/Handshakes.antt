-- ===== src/Tests/Handshakes.antt =====
-- The theorems on src/client.rs and src/server.rs, at concrete fields.
use ws_pmd_rs.Base.{
  ◌≡◌, ◌↔◌, All, refl, true, false, List, [], ◌∷◌, ◌++◌, Bytes, codes, none, some, ok, arith,
}
use ws_pmd_rs.Grammar.Running.{running}
use ws_pmd_rs.Grammar.Params.{Params, parse_params}
use ws_pmd_rs.Grammar.Params.Bounds.{ParamsInRange}
use ws_pmd_rs.Grammar.Split.Join.{HasElements}
use ws_pmd_rs.Grammar.Deflate.{deflate_in, deflate_elements}
use ws_pmd_rs.Grammar.Validate.{validate}
use ws_pmd_rs.Negotiated.{Negotiated, server, compatible}
use ws_pmd_rs.Negotiated.Render.{bits as client_bits, render_string}
use ws_pmd_rs.Negotiated.Render.RoundTrip.{params_meant, parse_params-render_string}
use ws_pmd_rs.Client.{ClientOffer, install, seal}
use ws_pmd_rs.Client.Agree.{agree, server_window, client_window}
use ws_pmd_rs.Client.Agree.Correct.{Acceptable, agreed, agree_iff, WithinOffer, agree-WithinOffer}
use ws_pmd_rs.Client.Offer.{Installed, install-Installed}
use ws_pmd_rs.Client.Scan.{contains_in, contains_deflate, sole_deflate}
use ws_pmd_rs.Client.Scan.Sole.{sole_of, sole_deflate-sole_of}
use ws_pmd_rs.Client.Seal.{sealed_handshake, HasInstalled, seal_iff}
use ws_pmd_rs.Server
use ws_pmd_rs.Server.Finish.{Settles, finish_iff}
use ws_pmd_rs.Client
use ws_pmd_rs.Client.{ClientHandshake}
use ws_pmd_rs.Client.Finish.{Settles as ClientSettles, client_finish_iff}
use ws_pmd_rs.Server.{accept}
use ws_pmd_rs.Server.Select.{ServerHandshake, select}
use ws_pmd_rs.Server.Select.Correct.{Supportable}
use ws_pmd_rs.Server.Select.Proposal.{Proposed, select-Proposed}
use ws_pmd_rs.Server.Accept.{Answer, accept-Answer}
use ws_pmd_rs.Handshake.Carried.{IsClear}
use ws_pmd_rs.Handshake.Agreement.{Completed, handshake-Completed}
use ws_pmd_rs.Tests.Wires.{
  plain, client_12, server_10, client_12-IsValid, server_10-IsValid, server_12, server_12-IsValid,
  offer_12, other,
}

pub other-IsClear : IsClear plain other
unfolding running deflate_in deflate_elements
other-IsClear = record { accepted = refl; none_in = refl }

pub nothing-IsClear : IsClear plain []
unfolding running deflate_in deflate_elements
nothing-IsClear = record { accepted = refl; none_in = refl }

handshake-Completed_example : Completed plain client_12 server_10 other []
handshake-Completed_example =
    handshake-Completed plain client_12 server_10 other [] client_12-IsValid server_10-IsValid
      (ground arith) (ground arith) other-IsClear nothing-IsClear

abbrev element_12 : Bytes
element_12 = codes "permessage-deflate; server_max_window_bits=12"

abbrev agreement_12 : Negotiated
agreement_12 = record {
  role = server;
  server_no_context_takeover = false;
  client_no_context_takeover = false;
  server_max_window_bits = 12;
  client_max_window_bits = 15;
}

-- An alternative that holds the server to a window of 8, and one that does not.
abbrev two_offers : List Bytes
two_offers =
    codes
      "permessage-deflate; server_max_window_bits=8, permessage-deflate; server_max_window_bits=12"
    ∷ []

two_offers-valid : validate two_offers ≡ ok tt
unfolding running
two_offers-valid = refl

accept-Answer_example :
    (ds : List Bytes) × (deflate_elements two_offers ≡ ok ds)
    × Answer plain server_12 ds (accept plain server_12 two_offers)
accept-Answer_example = accept-Answer plain server_12 server_12-IsValid two_offers two_offers-valid

abbrev offered_12 : ClientOffer plain
offered_12 = record { config = client_12; installed = offer_12 }

-- The offer between other elements of one line.
abbrev sent_12 : List Bytes
sent_12 = (codes "x-a , " ++ offer_12 ++ codes " , x-b") ∷ []

seal_iff_example :
    (seal plain offered_12 sent_12 ≡ ok (sealed_handshake plain offered_12 sent_12)) ↔ (
      (sealed_handshake plain offered_12 sent_12 ≡ sealed_handshake plain offered_12 sent_12)
      × HasInstalled plain offered_12 sent_12)
seal_iff_example = seal_iff plain offered_12 sent_12 (sealed_handshake plain offered_12 sent_12)

abbrev response_12 : Params
response_12 = params_meant true false (some 12) (client_bits 10)

agree_iff_example : (agree client_12 response_12 ≡ ok (agreed client_12 response_12)) ↔ (
    Acceptable client_12 response_12
    × (agreed client_12 response_12 ≡ agreed client_12 response_12))
agree_iff_example = agree_iff client_12 client_12-IsValid response_12 (agreed client_12 response_12)

response_12-agreed : agree client_12 response_12 ≡ ok (agreed client_12 response_12)
unfolding agree server_window client_window
response_12-agreed = refl

response_12-InRange : ParamsInRange response_12
response_12-InRange = ground arith

agree-WithinOffer_example : WithinOffer client_12 (agreed client_12 response_12)
agree-WithinOffer_example =
    agree-WithinOffer client_12 response_12 client_12-IsValid response_12-InRange response_12-agreed

parse_params-render_string_example :
    parse_params (render_string true false (some 12) (client_bits 10)) ≡ ok response_12
parse_params-render_string_example =
    parse_params-render_string true false (some 12) (client_bits 10) (ground arith) (ground arith)

abbrev answer_12 : List Bytes
answer_12 = codes "x-a, permessage-deflate; server_max_window_bits=12" ∷ codes "x-b" ∷ []

answer_12-HasElements : All HasElements answer_12
unfolding running
answer_12-HasElements = ((_, refl), ((_, refl), tt))

sole_deflate-sole_of_example :
    (ds : List Bytes) × (deflate_elements answer_12 ≡ ok ds)
    × (sole_deflate answer_12 none ≡ sole_of ds)
sole_deflate-sole_of_example = sole_deflate-sole_of answer_12 answer_12-HasElements

response_12-Supportable : Supportable server_10 response_12
response_12-Supportable = record { not_eight = λ e. ground (arith, e); takes = tt }

select-Proposed_example :
    (h : ServerHandshake plain) × (select plain server_10 response_12 ≡ ok (some h))
    × Proposed plain server_10 response_12 h
select-Proposed_example =
    select-Proposed plain server_10 response_12 server_10-IsValid response_12-InRange
      response_12-Supportable

other-untaken : contains_deflate other ≡ ok false
unfolding running contains_deflate contains_in
other-untaken = refl

install-Installed_example :
    (offer : ClientOffer plain) × (after : List Bytes) × (install plain client_12 other
      ≡ ok (offer, after))
    × Installed plain client_12 other offer after
install-Installed_example = install-Installed plain client_12 other client_12-IsValid other-untaken

-- The proposal, as the host sends it.
abbrev proposed_12 : ServerHandshake plain
proposed_12 = record { proposed = element_12; agreement = agreement_12 }

finish_iff_example :
    (Server.finish plain proposed_12 (element_12 ∷ []) compatible ≡ ok (some agreement_12))
    ↔ Settles plain proposed_12 (element_12 ∷ []) compatible (some agreement_12)
finish_iff_example =
    finish_iff plain proposed_12 (element_12 ∷ []) compatible (element_12 ∷ []) (some agreement_12)
      (unfold running in refl) (unfold running deflate_in deflate_elements in refl)

abbrev sealed_12 : ClientHandshake plain
sealed_12 = record { offer = some (record { config = client_12; sealed = offer_12 }) }

-- The response ignores the demand that the server gives up its takeover.
client_finish_iff_example :
    (Client.finish plain sealed_12 (element_12 ∷ []) compatible ≡ ok (some agreement_12))
    ↔ ClientSettles plain sealed_12 (element_12 ∷ []) compatible (some agreement_12)
client_finish_iff_example =
    client_finish_iff plain sealed_12 (element_12 ∷ []) compatible (element_12 ∷ [])
      (unfold running in refl) (unfold running deflate_in deflate_elements in refl)
      (some agreement_12)
