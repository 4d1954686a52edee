-- ===== src/Grammar/Field/Parameter.antt =====
-- Proofs about `split_parameter` of src/grammar.rs and the loop of `validate_element` over the
-- parameters.
use ws_pmd_rs.Base.{
  ℕ, suc, ◌+◌, ◌≡◌, ◌↔◌, ◌⊎◌, inl, inr, refl, ap, ◌∙◌, sym, Bool-cases, [], ◌∷◌, ◌++◌, List, Bytes,
  none, some, ◌==◌, All, position, get_range, unwrap_or, length, length-append, append_assoc,
  append-nil, arith, ok, >>=-eq-ok,
}
use ws_pmd_rs.Grammar.Trim.{trim}
use ws_pmd_rs.Grammar.Token.{validate_token}
use ws_pmd_rs.Grammar.Split.Loop.{get_range-middle}
use ws_pmd_rs.Grammar.Params.{split_parameter}
use ws_pmd_rs.Grammar.Validate.{validate_value, validate_parameters}
use ws_pmd_rs.Grammar.Field.{HasNoEquals, IsParameter, bare, valued}
use ws_pmd_rs.Grammar.Field.Token.{trimmed_token, validate_value_iff}

split_parameter-bare : (p : Bytes) → HasNoEquals p → split_parameter p ≡ (p, none)
unfolding split_parameter
split_parameter-bare p h = rw (split_parameter, absent p h) refl
  where
    absent : (p : Bytes) → HasNoEquals p → position (λ c. c == b'=') p ≡ none
    absent [] h = refl
    absent (c ∷ cs) h = rw (h.0, absent cs h.1) refl

first_equals :
    (key value : Bytes)
    → HasNoEquals key
    → position (λ c. c == b'=') (key ++ b'=' ∷ value) ≡ some (length key)
first_equals [] value h = refl
first_equals (c ∷ cs) value h = rw (h.0, first_equals cs value h.1) refl

split_parameter-position :
    (p : Bytes) (index : ℕ)
    → position (λ c. c == b'=') p ≡ some index
    → split_parameter p ≡ (unwrap_or (get_range p 0 index) [], get_range p (suc index) (length p))
unfolding split_parameter
split_parameter-position p index h = rw (split_parameter, h) refl

split_parameter-valued :
    (key value : Bytes)
    → HasNoEquals key
    → split_parameter (key ++ b'=' ∷ value) ≡ (key, some value)
split_parameter-valued key value h =
    let p = key ++ b'=' ∷ value in
    let short : 0 + length key ≡ length key = omega arith in
    let cut_front = get_range-middle [] key (b'=' ∷ value) p refl in
    let front : get_range p 0 (length key) ≡ some key =
      sym (ap (get_range p 0) short) ∙ cut_front in
    let joined : p ≡ (key ++ b'=' ∷ []) ++ (value ++ []) = rw (append-nil, append_assoc) refl in
    let start : length (key ++ b'=' ∷ []) ≡ suc (length key) =
      omega (arith, length-append key (b'=' ∷ [])) in
    let stop : suc (length key) + length value ≡ length p =
      omega (arith, length-append key (b'=' ∷ value)) in
    let cut_back = get_range-middle (key ++ b'=' ∷ []) value [] p joined in
    let back : get_range p (suc (length key)) (length p) ≡ some value =
      sym (
        ap (λ i. get_range p i (i + length value)) start ∙ ap (get_range p (suc (length key))) stop)
      ∙ cut_back in
    split_parameter-position p (length key) (first_equals key value h)
    ∙ ap (λ r. (unwrap_or r [], get_range p (suc (length key)) (length p))) front
    ∙ ap (λ r. (key, r)) back

-- Either there is no sign of equality, or a first one.
equals_cases :
    (p : Bytes)
    → HasNoEquals p
      ⊎ ((key : Bytes) × (value : Bytes) × (p ≡ key ++ b'=' ∷ value) × HasNoEquals key)
equals_cases [] = inl tt
equals_cases (c ∷ cs) = elim (Bool-cases (c == b'=')) [
  | inl e ↦ let sign : c ≡ b'=' = ground (arith, e) in inr ([], cs, ap (λ d. d ∷ cs) sign, tt)
  | inr n ↦ elim (equals_cases cs) [
    | inl h ↦ inl (n, h)
    | inr (key, value, e, h) ↦ inr (c ∷ key, value, ap (◌∷◌ c) e, (n, h))
  ]
]

checked-IsParameter :
    (p : Bytes)
    → validate_token (trim (split_parameter p).0) ≡ ok tt
    → validate_value (split_parameter p).1 ≡ ok tt
    → IsParameter p
checked-IsParameter p hk hv = elim (equals_cases p) [
  | inl n ↦ bare n ((trimmed_token p).0 (rw (split_parameter-bare p n) at hk))
  | inr (key, value, e, n) ↦
      let found = ap split_parameter e ∙ split_parameter-valued key value n in
      let v = (validate_value_iff value).0 (rw found at hv) in
      valued key value v.trimmed v.meant e n ((trimmed_token key).0 (rw found at hk)) v.is_trim
        v.means v.token
]

IsParameter-checked :
    (p : Bytes)
    → IsParameter p
    → (validate_token (trim (split_parameter p).0) ≡ ok tt)
      × (validate_value (split_parameter p).1 ≡ ok tt)
unfolding validate_value
IsParameter-checked p (bare n t) = rw (split_parameter-bare p n) ((trimmed_token p).1 t, refl)
IsParameter-checked p (valued key value trimmed meant e n t a b c) =
    let found = ap split_parameter e ∙ split_parameter-valued key value n in
    let v =
      (validate_value_iff value).1
        (record { trimmed = trimmed; meant = meant; is_trim = a; means = b; token = c }) in
    rw found ((trimmed_token key).1 t, v)

pub validate_parameters_iff :
    (ps : List Bytes) → (validate_parameters ps ≡ ok tt) ↔ All IsParameter ps
unfolding validate_parameters
validate_parameters_iff ps = (to ps, from ps)
  where
    to : (ps : List Bytes) → validate_parameters ps ≡ ok tt → All IsParameter ps
    to [] h = tt
    to (p ∷ ps) h =
        let (u, hk, j) =
          >>=-eq-ok (validate_token (trim (split_parameter p).0)) _ {result = tt} h in
        let (w, hv, rest) = >>=-eq-ok (validate_value (split_parameter p).1) _ {result = tt} j in
        (checked-IsParameter p hk hv, to ps rest)

    from : (ps : List Bytes) → All IsParameter ps → validate_parameters ps ≡ ok tt
    from [] h = refl
    from (p ∷ ps) (hp, hs) = let (hk, hv) = IsParameter-checked p hp in rw (hk, hv) (from ps hs)
