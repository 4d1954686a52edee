-- ===== src/Grammar/NoPanic.antt =====
-- Proofs about `parse_params` of src/grammar.rs.
pub mod Field
use ws_pmd_rs.Base.{
  ℕ, ◌≢◌, refl, Bool, true, false, ◌||◌, [], ◌∷◌, List, Bytes, Option, none, some, arith,
  Bool-cases, inl, inr, bytes_eq, codes, ◌==◌, ◌++◌, any, if◌then◌else◌, drop, Outcome, ok, err,
  panic, ok_or, guard, ◌>>=◌,
}
use ws_pmd_rs.Error.{NegotiationError, parameter_arity}
use ws_pmd_rs.Grammar.Split.{initial_scan, scan, close, split, segments, elements}
use ws_pmd_rs.Grammar.Trim.{trim}
use ws_pmd_rs.Grammar.Unquote.{unquote_loop, unquote}
use ws_pmd_rs.Grammar.WindowBits.{parse_digits, parse_bits}
use ws_pmd_rs.Grammar.Params.{
  split_parameter, no_value, set_once, Staged, nothing_staged, window_of, stage, stage_all,
  parse_params,
}

abbrev pub NoPanic {ℓ} : {A : Type ℓ} → Outcome NegotiationError A → Type ℓ
NoPanic m = m ≢ panic

pub >>=-NoPanic {ℓ κ} :
    {A : Type ℓ} {B : Type κ} (m : Outcome NegotiationError A) (f : A → Outcome NegotiationError B)
    → NoPanic m
    → ((a : A) → NoPanic (f a))
    → NoPanic (m >>= f)
>>=-NoPanic (ok a) f h k = k a
>>=-NoPanic (err e) f h k = λ q. cc
>>=-NoPanic panic f h k = λ q. h refl

pub ok-NoPanic {ℓ} : {A : Type ℓ} (a : A) → NoPanic (ok a)
ok-NoPanic a q = cc

pub if-NoPanic {ℓ} :
    {A : Type ℓ} (b : Bool) {m n : Outcome NegotiationError A}
    → NoPanic m
    → NoPanic n
    → NoPanic (if b then m else n)
if-NoPanic true h k = h
if-NoPanic false h k = k

pub guard-NoPanic : (b : Bool) (e : NegotiationError) → NoPanic (guard b e)
guard-NoPanic true e q = cc
guard-NoPanic false e q = cc

ok_or-NoPanic : {A : Type 0} (o : Option A) (e : NegotiationError) → NoPanic (ok_or o e)
ok_or-NoPanic none e q = cc
ok_or-NoPanic (some a) e q = cc

set_once-NoPanic : {A : Type 0} (slot : Option A) (v : A) → NoPanic (set_once slot v)
set_once-NoPanic none v q = cc
set_once-NoPanic (some a) v q = cc

no_value-NoPanic : (value : Option Bytes) → NoPanic (no_value value)
unfolding no_value
no_value-NoPanic none q = cc
no_value-NoPanic (some v) q = cc

split-NoPanic : (value : Bytes) (delimiter : ℕ) → NoPanic (split value delimiter)
unfolding split close
split-NoPanic value delimiter =
    elim (Bool-cases (
      (scan value delimiter 0 value initial_scan).quoted
      || (scan value delimiter 0 value initial_scan).escaped)) [
        | inl b ↦ λ q. cc (rw b at q)
        | inr b ↦ λ q. cc (rw b at q)
      ]

pub segments-NoPanic : (e : Bytes) → NoPanic (segments e)
unfolding segments
segments-NoPanic e = split-NoPanic e b';'

pub elements-NoPanic : (line : Bytes) → NoPanic (elements line)
unfolding elements
elements-NoPanic line = split-NoPanic line b','

unquote_loop-NoPanic : (output rest : Bytes) → NoPanic (unquote_loop output rest)
unfolding unquote_loop
unquote_loop-NoPanic output [] = λ q. cc
unquote_loop-NoPanic output (c ∷ []) =
    if-NoPanic (c == b'\\') (λ q. cc) (if-NoPanic (c == b'"') (ok-NoPanic output) (λ q. cc))
unquote_loop-NoPanic output (c ∷ n ∷ rest) =
    if-NoPanic (c == b'\\') (unquote_loop-NoPanic (output ++ n ∷ []) rest)
      (if-NoPanic (c == b'"') (λ q. cc) (unquote_loop-NoPanic (output ++ c ∷ []) (n ∷ rest)))

pub unquote-NoPanic : (value : Bytes) → NoPanic (unquote value)
unfolding unquote
unquote-NoPanic [] = λ q. cc
unquote-NoPanic (c ∷ cs) =
    if-NoPanic (c == b'"') (unquote_loop-NoPanic [] cs)
      (if-NoPanic (any (λ d. d == b'"') (c ∷ cs)) (λ q. cc) (ok-NoPanic (c ∷ cs)))

parse_digits-NoPanic : (ds : Bytes) → NoPanic (parse_digits ds)
unfolding parse_digits
parse_digits-NoPanic ds q = ground arith

parse_bits-NoPanic : (v : Bytes) → NoPanic (parse_bits v)
unfolding parse_bits
parse_bits-NoPanic v =
    >>=-NoPanic (unquote (trim v)) parse_digits (unquote-NoPanic (trim v)) parse_digits-NoPanic

window_of-NoPanic : (value : Option Bytes) → NoPanic (window_of value)
unfolding window_of
window_of-NoPanic none = λ q. cc
window_of-NoPanic (some v) = >>=-NoPanic (parse_bits v) _ (parse_bits-NoPanic v) (λ n q. cc)

stage-NoPanic : (key : Bytes) (value : Option Bytes) (s : Staged) → NoPanic (stage key value s)
unfolding stage
stage-NoPanic key value s =
    if-NoPanic (bytes_eq key (codes "server_no_context_takeover"))
      (>>=-NoPanic (no_value value) _ (no_value-NoPanic value) (λ v.
        >>=-NoPanic (set_once s.server_takeover v) _ (set_once-NoPanic s.server_takeover v)
          (λ t q. cc)))
      (if-NoPanic (bytes_eq key (codes "client_no_context_takeover"))
        (>>=-NoPanic (no_value value) _ (no_value-NoPanic value) (λ v.
          >>=-NoPanic (set_once s.client_takeover v) _ (set_once-NoPanic s.client_takeover v)
            (λ t q. cc)))
        (if-NoPanic (bytes_eq key (codes "server_max_window_bits"))
          (>>=-NoPanic (ok_or value parameter_arity) _ (ok_or-NoPanic value parameter_arity) (λ g.
            >>=-NoPanic (parse_bits g) _ (parse_bits-NoPanic g) (λ v.
              >>=-NoPanic (set_once s.server_window v) _ (set_once-NoPanic s.server_window v)
                (λ t q. cc))))
          (if-NoPanic (bytes_eq key (codes "client_max_window_bits"))
            (>>=-NoPanic (window_of value) _ (window_of-NoPanic value) (λ v.
              >>=-NoPanic (set_once s.client_window v) _ (set_once-NoPanic s.client_window v)
                (λ t q. cc)))
            (λ q. cc))))

stage_all-NoPanic : (ss : List Bytes) (s : Staged) → NoPanic (stage_all ss s)
unfolding stage_all
stage_all-NoPanic [] s = λ q. cc
stage_all-NoPanic (x ∷ xs) s =
    >>=-NoPanic (stage (trim (split_parameter x).0) (split_parameter x).1 s) (stage_all xs)
      (stage-NoPanic (trim (split_parameter x).0) (split_parameter x).1 s) (stage_all-NoPanic xs)

-- Reading the parameters of an element returns or fails: it never panics, on any bytes.
pub parse_params-NoPanic : (element : Bytes) → NoPanic (parse_params element)
unfolding parse_params
parse_params-NoPanic element = >>=-NoPanic (segments element) _ (segments-NoPanic element) (λ parts.
    >>=-NoPanic (stage_all (drop 1 parts) nothing_staged) _
      (stage_all-NoPanic (drop 1 parts) nothing_staged) (λ s q. cc))
