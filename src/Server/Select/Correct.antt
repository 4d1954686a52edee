-- ===== src/Server/Select/Correct.antt =====
-- Proofs about `select` of src/server.rs.
use ws_pmd_rs.Base.{
  ℕ, ◌≤◌, ◌≡◌, ◌≢◌, ◌⊎◌, refl, ap, ◌||◌, Option, none, some, ◌==◌, ltb, min, unwrap_or,
  if◌then◌else◌, arith, Bool-cases, inl, inr,
}
use ws_pmd_rs.Config.{ServerConfig}
use ws_pmd_rs.Config.Server.Valid.{IsValid}
use ws_pmd_rs.Grammar.Params.{Params, ClientWindow, absent, valueless, bits}
use ws_pmd_rs.Grammar.Params.Bounds.{ParamsInRange, ServerWindowInRange, ClientWindowInRange}
use ws_pmd_rs.Negotiated.{Negotiated, server}
use ws_pmd_rs.Negotiated.Render.Segments.{ServerInRange, ClientInRange}
use ws_pmd_rs.Server.Select.{server_window, client_window, echoed, Selection, settle, agreement_of}

-- The client can be told a window.
abbrev pub TakesWindow : ℕ → ClientWindow → Type 0
TakesWindow supported absent = 15 ≤ supported
TakesWindow supported valueless = Unit
TakesWindow supported (bits n) = Unit

-- An alternative that the configuration can serve: the server is not held to a window of 8, and
-- the client can be held to the window that the server insists on.
pub record Supportable (c : ServerConfig) (offer : Params) : Type 0 where
  pub not_eight : offer.server_max_window_bits ≢ some 8
  pub takes : TakesWindow c.client_max_window_bits offer.client_max_window_bits

-- The largest client window that the offer allows.
abbrev pub asked : ClientWindow → ℕ
asked absent = 15
asked valueless = 15
asked (bits n) = n

abbrev pub settled : ServerConfig → Params → Negotiated
settled c offer = record {
  role = server;
  server_no_context_takeover = c.server_no_context_takeover || offer.server_no_context_takeover;
  client_no_context_takeover = c.client_no_context_takeover || offer.client_no_context_takeover;
  server_max_window_bits = min (unwrap_or offer.server_max_window_bits 15) c.server_max_window_bits;
  client_max_window_bits = min (asked offer.client_max_window_bits) c.client_max_window_bits;
}

-- The widths that `settle` writes, where it writes one.
abbrev server_choice : ℕ → Option ℕ → Option ℕ
server_choice supported none = if ltb supported 15 then some supported else none
server_choice supported (some n) = some (min n supported)

abbrev client_choice : ℕ → ClientWindow → Option ℕ
client_choice supported absent = none
client_choice supported valueless = some supported
client_choice supported (bits n) = some (min n supported)

abbrev pub choice : ServerConfig → Params → Selection
choice c offer = record {
  server_takeover = c.server_no_context_takeover || offer.server_no_context_takeover;
  client_takeover = c.client_no_context_takeover || offer.client_no_context_takeover;
  server_bits = server_choice c.server_max_window_bits offer.server_max_window_bits;
  client_bits = client_choice c.client_max_window_bits offer.client_max_window_bits;
}

server_window-cases :
    (supported : ℕ) (given : Option ℕ)
    → ((given ≢ some 8) × (server_window supported given ≡ some (server_choice supported given)))
      ⊎ ((given ≡ some 8) × (server_window supported given ≡ none))
unfolding server_window
server_window-cases supported none = inl (λ e. cc, ground arith)
server_window-cases supported (some n) = elim (Bool-cases (n == 8)) [
  | inl e ↦ inr (ap some (ground (arith, e)), rw e)
  | inr e ↦ inl (λ f. ground (arith, e, f), rw e)
]

client_window-cases :
    (supported : ℕ) (given : ClientWindow)
    → (TakesWindow supported given
        × (client_window supported given ≡ some (client_choice supported given)))
      ⊎ (¬ (TakesWindow supported given) × (client_window supported given ≡ none))
unfolding client_window
client_window-cases supported absent = elim (Bool-cases (ltb supported 15)) [
  | inl e ↦ inr (λ t. ground (arith, e, t), rw e)
  | inr e ↦ inl (ground (arith, e), rw e)
]
client_window-cases supported valueless = inl (tt, refl)
client_window-cases supported (bits n) = inl (tt, refl)

-- An alternative that the configuration can serve is settled as the two sides spell it out, and
-- every other one is declined.
pub settle-cases :
    (c : ServerConfig) (offer : Params)
    → (Supportable c offer × (settle c offer ≡ some (choice c offer)))
      ⊎ (¬ (Supportable c offer) × (settle c offer ≡ none))
unfolding settle
settle-cases c offer =
    elim (server_window-cases c.server_max_window_bits offer.server_max_window_bits) [
      | inr (eight, s) ↦ inr (λ u. u.not_eight eight, rw s)
      | inl (other, s) ↦
          elim (client_window-cases c.client_max_window_bits offer.client_max_window_bits) [
            | inr (refuses, w) ↦ inr (λ u. refuses u.takes, rw (s, w))
            | inl (takes, w) ↦ inl (record { not_eight = other; takes = takes }, rw (s, w))
          ]
    ]

-- What holds of everything that is settled for a valid configuration.
pub record Sound (c : ServerConfig) (offer : Params) : Type 0 where
  pub agreement : agreement_of (choice c offer) ≡ settled c offer
  pub server_range : ServerInRange (choice c offer).server_bits
  pub client_range : ClientInRange (echoed (choice c offer).client_bits)
  pub server_floor : 9 ≤ (settled c offer).server_max_window_bits
  pub client_floor : 8 ≤ (settled c offer).client_max_window_bits

record SoundServer (supported : ℕ) (given : Option ℕ) : Type 0 where
  value : unwrap_or (server_choice supported given) 15 ≡ min (unwrap_or given 15) supported
  range : ServerInRange (server_choice supported given)
  floor : 9 ≤ min (unwrap_or given 15) supported

choice-SoundServer :
    (supported : ℕ) (given : Option ℕ)
    → 9 ≤ supported
    → supported ≤ 15
    → ServerWindowInRange given
    → given ≢ some 8
    → SoundServer supported given
choice-SoundServer supported none lo hi r n = elim (Bool-cases (ltb supported 15)) [
  | inl e ↦ record {
    value = rw e (ground arith);
    range = rw e (omega (arith, lo), hi);
    floor = ground arith;
  }
  | inr e ↦ record { value = rw e (ground arith); range = rw e tt; floor = ground arith }
]
choice-SoundServer supported (some b) lo hi r n =
    let nine : 9 ≤ b = nine_up b r.0 (λ e. n (ap some e)) in
    record { value = refl; range = ground arith; floor = ground arith }
  where
    nine_up : (b : ℕ) → 8 ≤ b → b ≢ 8 → 9 ≤ b
    nine_up b l n = ground arith

record SoundClient (supported : ℕ) (given : ClientWindow) : Type 0 where
  value : unwrap_or (client_choice supported given) 15 ≡ min (asked given) supported
  range : ClientInRange (echoed (client_choice supported given))
  floor : 8 ≤ min (asked given) supported

echoed-InRange : (n : ℕ) → 8 ≤ n → n ≤ 15 → ClientInRange (echoed (some n))
echoed-InRange n lo hi = elim (Bool-cases (ltb n 15)) [ inl e ↦ rw e (lo, hi) | inr e ↦ rw e tt ]

choice-SoundClient :
    (supported : ℕ) (given : ClientWindow)
    → 8 ≤ supported
    → supported ≤ 15
    → ClientWindowInRange given
    → TakesWindow supported given
    → SoundClient supported given
choice-SoundClient supported absent lo hi r t = record {
  value = ground arith;
  range = tt;
  floor = ground arith;
}
choice-SoundClient supported valueless lo hi r t = record {
  value = ground arith;
  range = echoed-InRange supported lo hi;
  floor = ground arith;
}
choice-SoundClient supported (bits b) lo hi r t = record {
  value = refl;
  range = echoed-InRange (min b supported) (ground arith) (ground arith);
  floor = ground arith;
}

pub Supportable-Sound :
    (c : ServerConfig) (offer : Params)
    → IsValid c
    → ParamsInRange offer
    → Supportable c offer
    → Sound c offer
unfolding agreement_of
Supportable-Sound c offer v r u =
    let s =
      choice-SoundServer c.server_max_window_bits offer.server_max_window_bits v.server_floor
        v.server_ceiling r.0 u.not_eight in
    let w =
      choice-SoundClient c.client_max_window_bits offer.client_max_window_bits v.client_floor
        v.client_ceiling r.1 u.takes in
    record {
      agreement = rw (s.value, w.value);
      server_range = s.range;
      client_range = w.range;
      server_floor = s.floor;
      client_floor = w.floor;
    }
