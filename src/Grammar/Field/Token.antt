-- ===== src/Grammar/Field/Token.antt =====
-- Proofs about `validate_token` and `validate_value` of src/grammar.rs.
use ws_pmd_rs.Base.{
  ℕ, ◌≡◌, ◌↔◌, refl, ap, ◌∙◌, sym, Bool, true, false, not, ◌||◌, ◌&&◌, [], ◌∷◌, Bytes, some, all,
  All, arith, if◌then◌else◌, Outcome, ok, err, >>=-eq-ok,
}
use ws_pmd_rs.Grammar.Token.{is_tchar, validate_token}
use ws_pmd_rs.Error.{NegotiationError, malformed_header}
use ws_pmd_rs.Grammar.Trim.{trim, not_whitespace}
use ws_pmd_rs.Grammar.Trim.Correct.{IsTrimOf, trim-IsTrimOf}
use ws_pmd_rs.Grammar.Unquote.{unquote}
use ws_pmd_rs.Grammar.Unquote.Correct.{Means, unquote_iff}
use ws_pmd_rs.Grammar.Validate.{validate_value}
use ws_pmd_rs.Grammar.Field.{is_token_char, IsToken, HoldsToken}

-- The ranges of `is_tchar` are the characters that are no CTL and no separator.
is_tchar_lem : (c : ℕ) → is_tchar c ≡ is_token_char c
unfolding is_tchar
is_tchar_lem c = ground arith

all_tchars : (cs : Bytes) → (all is_tchar cs ≡ true) ↔ All (λ d. is_token_char d ≡ true) cs
all_tchars cs = (to cs, from cs)
  where
    both : (a b : Bool) → (a && b) ≡ true → (a ≡ true) × (b ≡ true)
    both a b h = ground arith

    to : (cs : Bytes) → all is_tchar cs ≡ true → All (λ d. is_token_char d ≡ true) cs
    to [] h = tt
    to (c ∷ cs) h =
        let (a, b) = both (is_tchar c) (all is_tchar cs) h in (sym (is_tchar_lem c) ∙ a, to cs b)

    from : (cs : Bytes) → All (λ d. is_token_char d ≡ true) cs → all is_tchar cs ≡ true
    from [] h = refl
    from (c ∷ cs) (a, b) = rw (is_tchar_lem c, a) (from cs b)

abbrev refused : Outcome NegotiationError (Unit {0})
refused = err malformed_header

passed : (e a : Bool) → (if e || not a then refused else ok tt) ≡ ok tt → (e ≡ false) × (a ≡ true)
passed true a h = cc
passed false true h = (refl, refl)
passed false false h = cc

validate_token_iff : (v : Bytes) → (validate_token v ≡ ok tt) ↔ IsToken v
unfolding validate_token
validate_token_iff [] = (λ h. cc, λ h. absurd h)
validate_token_iff (c ∷ cs) = (
  λ h. (all_tchars (c ∷ cs)).0 (passed false (all is_tchar (c ∷ cs)) h).1,
  λ h. rw ((all_tchars (c ∷ cs)).1 h) refl,
)

-- What `validate_token` accepts once it is trimmed.
pub trimmed_token : (raw : Bytes) → (validate_token (trim raw) ≡ ok tt) ↔ HoldsToken raw
trimmed_token raw = (
  λ h. (trim raw, (trim-IsTrimOf raw).0, (validate_token_iff (trim raw)).0 h),
  λ (token, t, h).
      ap validate_token (sym ((trim-IsTrimOf raw).1 token t)) ∙ (validate_token_iff token).1 h,
)

-- What `validate_value` accepts.
pub record HoldsValue (value : Bytes) : Type 0 where
  pub trimmed : Bytes
  pub meant : Bytes
  pub is_trim : IsTrimOf not_whitespace value trimmed
  pub means : Means trimmed meant
  pub token : IsToken meant

pub validate_value_iff : (value : Bytes) → (validate_value (some value) ≡ ok tt) ↔ HoldsValue value
unfolding validate_value
validate_value_iff value = (to, from)
  where
    to : validate_value (some value) ≡ ok tt → HoldsValue value
    to h =
        let (meant, hu, ht) = >>=-eq-ok (unquote (trim value)) validate_token {result = tt} h in
        record {
          trimmed = trim value;
          meant = meant;
          is_trim = (trim-IsTrimOf value).0;
          means = (unquote_iff (trim value) meant).0 hu;
          token = (validate_token_iff meant).0 ht;
        }

    from : HoldsValue value → validate_value (some value) ≡ ok tt
    from v =
        let same : unquote (trim value) ≡ ok v.meant =
          ap unquote (sym ((trim-IsTrimOf value).1 v.trimmed v.is_trim))
          ∙ (unquote_iff v.trimmed v.meant).1 v.means in
        rw same ((validate_token_iff v.meant).1 v.token)
