-- ===== src/Client/Agree/Correct.antt =====
-- Proofs about `SealedOffer::agree` of src/client.rs.
use ws_pmd_rs.Base.{
  ℕ, ◌≤◌, ◌≡◌, ◌↔◌, refl, ap, ◌∙◌, sym, Bool, true, false, not, ◌&&◌, ◌||◌, Option, none, some, min,
  unwrap_or, arith, ok, guard, >>=-eq-ok, guard-eq-ok, ok-injective,
}
use ws_pmd_rs.Error.{server_takeover_not_honoured}
use ws_pmd_rs.Config.{ClientConfig}
use ws_pmd_rs.Config.Client.Valid.{IsValid}
use ws_pmd_rs.Grammar.Params.{Params, ClientWindow, absent, valueless, bits}
use ws_pmd_rs.Grammar.Params.Bounds.{ParamsInRange, ServerWindowInRange}
use ws_pmd_rs.Negotiated.{Negotiated, client}
use ws_pmd_rs.Client.Agree.{server_window, client_window, agree}

-- The client can compress at the width, or was given none.
abbrev pub ClientCanUse : ClientWindow → Type 0
ClientCanUse absent = Unit
ClientCanUse valueless = ⊥
ClientCanUse (bits n) = 9 ≤ n

-- The response honours what the configuration asked of the server.
pub record Acceptable (c : ClientConfig) (p : Params) : Type 0 where
  pub honoured : c.server_no_context_takeover ≡ true → p.server_no_context_takeover ≡ true
  pub server_fits : unwrap_or p.server_max_window_bits 15 ≤ c.server_max_window_bits
  pub client_can : ClientCanUse p.client_max_window_bits

-- The largest client window that the response allows.
abbrev pub allowed : ClientWindow → ℕ
allowed absent = 15
allowed valueless = 15
allowed (bits n) = n

abbrev pub agreed : ClientConfig → Params → Negotiated
agreed c p = record {
  role = client;
  server_no_context_takeover = p.server_no_context_takeover;
  client_no_context_takeover = c.client_no_context_takeover || p.client_no_context_takeover;
  server_max_window_bits = unwrap_or p.server_max_window_bits 15;
  client_max_window_bits = min (allowed p.client_max_window_bits) c.client_max_window_bits;
}

server_window-eq-ok :
    (offered : ℕ) (given : Option ℕ) {b : ℕ}
    → offered ≤ 15
    → server_window offered given ≡ ok b
    → (b ≡ unwrap_or given 15) × (unwrap_or given 15 ≤ offered)
unfolding server_window
server_window-eq-ok offered none h e = ground arith
server_window-eq-ok offered (some n) h e = ground arith

server_window-fits :
    (offered : ℕ) (given : Option ℕ)
    → unwrap_or given 15 ≤ offered
    → server_window offered given ≡ ok (unwrap_or given 15)
unfolding server_window
server_window-fits offered none h = ground arith
server_window-fits offered (some n) h = ground arith

client_window-eq-ok :
    (offered : ℕ) (given : ClientWindow) {b : ℕ}
    → offered ≤ 15
    → client_window offered given ≡ ok b
    → (b ≡ min (allowed given) offered) × ClientCanUse given
unfolding client_window
client_window-eq-ok offered absent h e = (ground arith, tt)
client_window-eq-ok offered valueless h e = cc
client_window-eq-ok offered (bits n) h e = ground arith

client_window-can :
    (offered : ℕ) (given : ClientWindow)
    → offered ≤ 15
    → ClientCanUse given
    → client_window offered given ≡ ok (min (allowed given) offered)
unfolding client_window
client_window-can offered absent h c = ground arith
client_window-can offered valueless h c = absurd c
client_window-can offered (bits n) h c = ground arith

honours : (a b : Bool) → not (a && not b) ≡ true → a ≡ true → b ≡ true
honours a b h e = ground arith

honours_guard : (a b : Bool) → (a ≡ true → b ≡ true) → not (a && not b) ≡ true
honours_guard true b h = rw (h refl)
honours_guard false b h = refl

module _ (c : ClientConfig) (v : IsValid c) (p : Params) where
  agree-Acceptable : {n : Negotiated} → agree c p ≡ ok n → Acceptable c p × (n ≡ agreed c p)
  unfolding agree
  agree-Acceptable {n} h =
      let (u, hg, j) =
        >>=-eq-ok
          (guard (not (c.server_no_context_takeover && not p.server_no_context_takeover))
            server_takeover_not_honoured)
          _ {result = n} h in
      let (s, hs, k) =
        >>=-eq-ok (server_window c.server_max_window_bits p.server_max_window_bits) _ {result = n}
          j in
      let (w, hw, e) =
        >>=-eq-ok (client_window c.client_max_window_bits p.client_max_window_bits) _ {result = n}
          k in
      let (s_is, fits) =
        server_window-eq-ok c.server_max_window_bits p.server_max_window_bits v.server_ceiling hs in
      let (w_is, can) =
        client_window-eq-ok c.client_max_window_bits p.client_max_window_bits v.client_ceiling hw in
      (
        record {
          honoured = honours c.server_no_context_takeover p.server_no_context_takeover (
              guard-eq-ok (not (c.server_no_context_takeover && not p.server_no_context_takeover))
                server_takeover_not_honoured hg);
          server_fits = fits;
          client_can = can;
        },
        sym (ok-injective e) ∙ rw (s_is, w_is),
      )

  Acceptable-agree : Acceptable c p → agree c p ≡ ok (agreed c p)
  unfolding agree
  Acceptable-agree a = rw (
    honours_guard c.server_no_context_takeover p.server_no_context_takeover a.honoured,
    server_window-fits c.server_max_window_bits p.server_max_window_bits a.server_fits,
    client_window-can c.client_max_window_bits p.client_max_window_bits v.client_ceiling
        a.client_can,
  )

  -- A valid configuration agrees to a response exactly where the response honours the demand on
  -- the server's takeover, keeps the server's window within the offered one, and leaves the client
  -- a window that it can compress at; the agreement is then the one that the two sides spell out,
  -- with the client's window the smaller of the allowed and the offered one.
  pub agree_iff : (n : Negotiated) → (agree c p ≡ ok n) ↔ (Acceptable c p × (n ≡ agreed c p))
  agree_iff n = (agree-Acceptable, λ (a, e). Acceptable-agree a ∙ ap ok (sym e))

-- The windows that an agreement of the client has: the server's is one the wire can carry and no
-- larger than the offered one, the client's is one a compressor can be built at and no larger than
-- the offered one.
pub record WithinOffer (c : ClientConfig) (n : Negotiated) : Type 0 where
  pub server_floor : 8 ≤ n.server_max_window_bits
  pub server_offered : n.server_max_window_bits ≤ c.server_max_window_bits
  pub client_floor : 9 ≤ n.client_max_window_bits
  pub client_offered : n.client_max_window_bits ≤ c.client_max_window_bits

server_floor : (w : Option ℕ) → ServerWindowInRange w → 8 ≤ unwrap_or w 15
server_floor none h = omega arith
server_floor (some n) h = h.0

client_floor :
    (w : ClientWindow) (offered : ℕ) → 9 ≤ offered → ClientCanUse w → 9 ≤ min (allowed w) offered
client_floor absent offered h c = ground arith
client_floor valueless offered h c = absurd c
client_floor (bits n) offered h c = ground arith

-- What a valid configuration agrees to, on parameters in the wire's range, has a server window from
-- 8 to the offered one and a client window from 9 to the offered one.
pub agree-WithinOffer :
    (c : ClientConfig) (p : Params) {n : Negotiated}
    → IsValid c
    → ParamsInRange p
    → agree c p ≡ ok n
    → WithinOffer c n
agree-WithinOffer c p {n} v r h =
    let (a, e) = (agree_iff c v p n).0 h in
    rw e (record {
      server_floor = server_floor p.server_max_window_bits r.0;
      server_offered = a.server_fits;
      client_floor =
          client_floor p.client_max_window_bits c.client_max_window_bits v.client_floor
            a.client_can;
      client_offered = ground arith;
    })
