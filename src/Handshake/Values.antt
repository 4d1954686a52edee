-- ===== src/Handshake/Values.antt =====
-- Proofs about a client and a server that negotiate.
use ws_pmd_rs.Base.{
  ℕ, ◌≤◌, ◌≡◌, ◌≢◌, refl, ap, ◌∙◌, sym, ◌||◌, Option, none, some, ◌==◌, ltb, min, unwrap_or, arith,
  Bool-cases, inl, inr, ok,
}
use ws_pmd_rs.Config.{ClientConfig, ServerConfig}
use ws_pmd_rs.Config.Client.Valid.{IsValid as ClientIsValid}
use ws_pmd_rs.Config.Server.Valid.{IsValid as ServerIsValid}
use ws_pmd_rs.Grammar.Params.{Params}
use ws_pmd_rs.Grammar.Params.Bounds.{ParamsInRange, ServerWindowInRange, ClientWindowInRange}
use ws_pmd_rs.Negotiated.{Negotiated, Role, client, server}
use ws_pmd_rs.Negotiated.Render.RoundTrip.{params_meant, window_meant}
use ws_pmd_rs.Client.{server_bits_of, client_bits_of}
use ws_pmd_rs.Client.Agree.{agree}
use ws_pmd_rs.Client.Agree.Correct.{ClientCanUse, Acceptable, allowed, agreed, agree_iff}
use ws_pmd_rs.Server.Select.{echoed, agreement_of}
use ws_pmd_rs.Server.Select.Correct.{
  Supportable, TakesWindow, asked, settled, choice, Supportable-Sound,
}
use ws_pmd_rs.Server.Select.Proposal.{reply}

-- The parameters that an offer means.
abbrev pub offered : ClientConfig → Params
offered c =
    params_meant c.server_no_context_takeover c.client_no_context_takeover (server_bits_of c)
      (client_bits_of c)

-- What both want: each takeover is given up where either side asks for it, each window is the
-- smaller of the two.
abbrev pub common : ClientConfig → ServerConfig → Role → Negotiated
common c s side = record {
  role = side;
  server_no_context_takeover = s.server_no_context_takeover || c.server_no_context_takeover;
  client_no_context_takeover = s.client_no_context_takeover || c.client_no_context_takeover;
  server_max_window_bits = min c.server_max_window_bits s.server_max_window_bits;
  client_max_window_bits = min c.client_max_window_bits s.client_max_window_bits;
}

module _ (c : ClientConfig) (vc : ClientIsValid c) where
  server_asked : unwrap_or (server_bits_of c) 15 ≡ c.server_max_window_bits
  server_asked = elim (Bool-cases (c.server_max_window_bits == 15)) [
    | inl e ↦ rw e (ground (arith, e))
    | inr e ↦ rw e
  ]

  client_asked : asked (window_meant (client_bits_of c)) ≡ c.client_max_window_bits
  client_asked = elim (Bool-cases (c.client_max_window_bits == 15)) [
    | inl e ↦ rw e (ground (arith, e))
    | inr e ↦ rw e
  ]

  offered-server : ServerWindowInRange (server_bits_of c)
  offered-server = elim (Bool-cases (c.server_max_window_bits == 15)) [
    | inl e ↦ rw e tt
    | inr e ↦ rw e (vc.server_floor, vc.server_ceiling)
  ]

  offered-client :
      (supported : ℕ)
      → ClientWindowInRange (window_meant (client_bits_of c))
        × TakesWindow supported (window_meant (client_bits_of c))
  offered-client supported = elim (Bool-cases (c.client_max_window_bits == 15)) [
    | inl e ↦ rw e (tt, tt)
    | inr e ↦ rw e ((omega (arith, vc.client_floor), vc.client_ceiling), tt)
  ]

  offered-not_eight : c.server_max_window_bits ≢ 8 → server_bits_of c ≢ some 8
  offered-not_eight n e = n (sym server_asked ∙ ap (λ o. unwrap_or o 15) e)

  pub offered-InRange : ParamsInRange (offered c)
  offered-InRange = (offered-server, (offered-client 15).0)

  pub offered-Supportable :
      (s : ServerConfig) → c.server_max_window_bits ≢ 8 → Supportable s (offered c)
  offered-Supportable s n = record {
    not_eight = offered-not_eight n;
    takes = (offered-client s.client_max_window_bits).1;
  }

  pub settled-common : (s : ServerConfig) → settled s (offered c) ≡ common c s server
  settled-common s = rw (server_asked, client_asked)

-- What an echoed width allows is the width, where it is in range.
echoed-allowed :
    (o : Option ℕ) → unwrap_or o 15 ≤ 15 → allowed (window_meant (echoed o)) ≡ unwrap_or o 15
echoed-allowed none h = refl
echoed-allowed (some n) h = elim (Bool-cases (ltb n 15)) [
  | inl e ↦ rw e
  | inr e ↦ rw e (ground (arith, e, h))
]

echoed-CanUse : (o : Option ℕ) → 9 ≤ unwrap_or o 15 → ClientCanUse (window_meant (echoed o))
echoed-CanUse none h = tt
echoed-CanUse (some n) h = elim (Bool-cases (ltb n 15)) [ inl e ↦ rw e h | inr e ↦ rw e tt ]

module _ (c : ClientConfig) (s : ServerConfig) (vc : ClientIsValid c) (vs : ServerIsValid s)
    (n : c.server_max_window_bits ≢ 8) where
  chosen : agreement_of (choice s (offered c)) ≡ common c s server
  chosen =
      (Supportable-Sound s (offered c) vs (offered-InRange c vc)
        (offered-Supportable c vc s n)).agreement
      ∙ settled-common c vc s

  chosen_server :
      unwrap_or (choice s (offered c)).server_bits 15
      ≡ min c.server_max_window_bits s.server_max_window_bits
  unfolding agreement_of
  chosen_server = ap (λ a. a.server_max_window_bits) chosen

  chosen_client :
      unwrap_or (choice s (offered c)).client_bits 15
      ≡ min c.client_max_window_bits s.client_max_window_bits
  unfolding agreement_of
  chosen_client = ap (λ a. a.client_max_window_bits) chosen

  reply_allows :
      allowed (reply s (offered c)).client_max_window_bits
      ≡ min c.client_max_window_bits s.client_max_window_bits
  reply_allows =
      echoed-allowed (choice s (offered c)).client_bits
        (rw chosen_client (ground (arith, vc.client_ceiling)))
      ∙ chosen_client

  reply-Acceptable : s.client_max_window_bits ≢ 8 → Acceptable c (reply s (offered c))
  reply-Acceptable m = record {
    honoured = λ e. rw e (ground arith);
    server_fits = rw chosen_server (ground arith);
    client_can =
        echoed-CanUse (choice s (offered c)).client_bits
          (rw chosen_client (ground (arith, vc.client_floor, vs.client_floor, m)));
  }

  agreed-common : agreed c (reply s (offered c)) ≡ common c s client
  agreed-common = rw (chosen_server, reply_allows) (ground arith)

  -- Whatever two valid configurations offer and serve, but for a server held to a window of 8 and a
  -- client held to one of 8, the client agrees to the reply, and agrees to the terms that the
  -- server has settled: each takeover given up where either asks, each window the smaller of the
  -- two.
  pub agree-common :
      s.client_max_window_bits ≢ 8 → agree c (reply s (offered c)) ≡ ok (common c s client)
  agree-common m =
      (agree_iff c vc (reply s (offered c)) (common c s client)).1
        (reply-Acceptable m, sym agreed-common)
