-- ===== src/Tests/Marks.antt =====
-- A format in which an octet 1 announces an octet of the payload and all else is skipped, and a
-- compressor and an inflater for it.
use native.Mathlib.Nat.{le_refl, le_of_eq}
use ws_pmd_rs.Base.{
  ◌≢◌, ℕ, zero, suc, ◌+◌, ◌*◌, ◌≤◌, ◌<◌, ◌≡◌, refl, ap, ◌∙◌, sym, List, [], ◌∷◌, ◌++◌, append-nil,
  append_assoc, Bytes, Option, none, some, length, length-append, take, drop, take-append-drop,
  arith,
}
use ws_pmd_rs.Codec.Numbers.{trailer}
use ws_pmd_rs.Encoder.Backend as Deflate
use ws_pmd_rs.Encoder.Backend.{Flush, flush_none, flush_sync}
use ws_pmd_rs.Encoder.Frame.{framing_margin, empty_message}
use ws_pmd_rs.Encoder.Bounded.{Bounded}
use ws_pmd_rs.Loopback.Format.{Format, Deflates}
use ws_pmd_rs.Tests.Streams.{cut, whole_cut, within_room, take_all}

abbrev pub announced : Bytes → Bytes
announced [] = []
announced (zero ∷ xs) = announced xs
announced (suc zero ∷ []) = []
announced (suc zero ∷ x ∷ xs) = x ∷ announced xs
announced (suc (suc n) ∷ xs) = announced xs

pub announced-append :
    (front back : Bytes) → (more : Bytes) × (announced (front ++ back) ≡ announced front ++ more)
announced-append [] back = (announced back, refl)
announced-append (zero ∷ xs) back = announced-append xs back
announced-append (suc zero ∷ []) [] = ([], refl)
announced-append (suc zero ∷ []) (y ∷ back) = (y ∷ announced back, refl)
announced-append (suc zero ∷ x ∷ xs) back =
    let (more, same) = announced-append xs back in (more, ap (◌∷◌ x) same)
announced-append (suc (suc n) ∷ xs) back = announced-append xs back

-- What a compressor is given: an octet, or a flush.
abbrev events_of : Bytes → Flush → List (Option ℕ)
events_of [] flush_none = []
events_of [] flush_sync = none ∷ []
events_of (x ∷ xs) f = some x ∷ events_of xs f

abbrev pub wire : List (Option ℕ) → Bytes
wire [] = []
wire (some x ∷ es) = 1 ∷ x ∷ wire es
wire (none ∷ es) = (empty_message ++ trailer) ++ wire es

abbrev octets : List (Option ℕ) → Bytes
octets [] = []
octets (some x ∷ es) = x ∷ octets es
octets (none ∷ es) = octets es

pub wire-append : (es fs : List (Option ℕ)) → wire (es ++ fs) ≡ wire es ++ wire fs
wire-append [] fs = refl
wire-append (some x ∷ es) fs = ap (λ t. 1 ∷ x ∷ t) (wire-append es fs)
wire-append (none ∷ es) fs = ap (λ t. (empty_message ++ trailer) ++ t) (wire-append es fs)

pub octets-append :
    (es : List (Option ℕ)) (xs : Bytes) (f : Flush)
    → octets (es ++ events_of xs f) ≡ octets es ++ xs
octets-append [] [] flush_none = refl
octets-append [] [] flush_sync = refl
octets-append [] (x ∷ xs) f = ap (◌∷◌ x) (octets-append [] xs f)
octets-append (some x ∷ es) xs f = ap (◌∷◌ x) (octets-append es xs f)
octets-append (none ∷ es) xs f = octets-append es xs f

pub announced-wire :
    (es : List (Option ℕ)) (more : Bytes)
    → announced (wire es ++ more) ≡ octets es ++ announced more
announced-wire [] more = refl
announced-wire (some x ∷ es) more = ap (◌∷◌ x) (announced-wire es more)
announced-wire (none ∷ es) more = announced-wire es more

length-wire : (xs : Bytes) → length (wire (events_of xs flush_none)) ≡ 2 * length xs
length-wire [] = refl
length-wire (x ∷ xs) = omega (arith, length-wire xs)

pub trailer-wire : (es : List (Option ℕ)) → ◌≢◌ {A = Bytes} trailer (wire es)
trailer-wire [] h = cc
trailer-wire (some x ∷ es) h = cc
trailer-wire (none ∷ es) h = cc

-- Every octet may stand in a stream; whole blocks are what a list of events is written as.
abbrev pub announcing : Format
announcing = record {
  IsStream = λ w xs. Unit {0};
  IsStream-wider = λ w v xs fits h. h;
  meaning = announced;
  IsStream-front = λ w front back h. h;
  meaning_nil = refl;
  meaning-append = λ w front back h. announced-append front back;
  IsBlocks = λ xs. (es : List (Option ℕ)) × (xs ≡ wire es);
  trailer_alone = λ h. trailer-wire h.0 h.1;
}

-- A compressor: what it was given, what of it is put out and what is held.
pub record Tape : Type 0 where
  pub bits : ℕ
  pub events : List (Option ℕ)
  pub put : Bytes
  pub held : Bytes
  pub all : put ++ held ≡ wire events

abbrev pub blank : ℕ → Tape
blank bits = record { bits = bits; events = []; put = []; held = []; all = refl }

module _ (c : Tape) (input : Bytes) (room : ℕ) (f : Flush) where
  abbrev due : Bytes
  due = c.held ++ wire (events_of input f)

  pub due-all : (c.put ++ take room due) ++ drop room due ≡ wire (c.events ++ events_of input f)
  due-all =
      append_assoc c.put (take room due) (drop room due)
      ∙ ap (λ t. c.put ++ t) (take-append-drop room due)
      ∙ sym (append_assoc c.put c.held (wire (events_of input f)))
      ∙ ap (λ t. t ++ wire (events_of input f)) c.all
      ∙ sym (wire-append c.events (events_of input f))

  abbrev advanced : Tape
  advanced = record {
    bits = c.bits;
    events = c.events ++ events_of input f;
    put = c.put ++ take room due;
    held = drop room due;
    all = due-all;
  }

abbrev pub marking : Deflate.Backend
marking = record {
  Compress = Tape;
  new_with_window_bits = λ level z bits. blank bits;
  reset = λ c. blank c.bits;
  total_in = λ c. length (octets c.events);
  total_out = λ c. length c.put;
  state_after = advanced;
  appended = λ c input room f. take room (due c input room f);
  status_of = λ c input room f. some Deflate.status_ok;
  reserved = λ capacity len room. len + room;
  reserves = λ capacity len room. omega arith;
}

pub five_lt : 5 < framing_margin
five_lt = omega arith

pub marking-counts :
    (c : Tape) (i : Bytes) (f : Flush)
    → length (octets (c.events ++ events_of i f)) ≡ length (octets c.events) + length i
marking-counts c i f = ap length (octets-append c.events i f) ∙ length-append (octets c.events) i

pub marking-pays :
    (c : Tape) (i : Bytes) (room : ℕ)
    → length (drop room (due c i room flush_none)) + length (take room (due c i room flush_none))
      ≤ length c.held + 2 * length i
marking-pays c i room =
    le_of_eq (
      cut room c.held (wire (events_of i flush_none)) ∙ ap (λ k. length c.held + k) (length-wire i))

abbrev pub marking_bounded : Bounded marking
marking_bounded = record {
  consumed = λ c i room f. length i;
  consumed-le = λ c i room f. le_refl (length i);
  counts_in = λ c i room f. marking-counts c i f;
  counts_out = λ c i room f. length-append c.put (take room (due c i room f));
  fits_room = λ c i room f. within_room room (due c i room f);
  taken_in = λ c. octets c.events;
  put_out = λ c. c.put;
  takes_in =
      λ c i room f. octets-append c.events i f ∙ ap (λ t. octets c.events ++ t) (sym (take_all i));
  puts_out = λ c i room f. refl;
  window = λ c. c.bits;
  keeps_window = λ c i room f. refl;
  owed = λ c. length c.held;
  growth = 2;
  marker = 5;
  marker_small = five_lt;
  pays = marking-pays;
  pays_flush = λ c room. le_of_eq (cut room c.held (wire (none ∷ [])));
  drains = λ c room s e h. whole_cut room (due c [] room flush_sync) h;
}

no_octet : (xs : Bytes) → length xs ≡ 0 → xs ≡ []
no_octet [] h = refl
no_octet (x ∷ xs) h = absurd (omega (arith, h))

pub put_is_wire : (c : Tape) → length c.held ≡ 0 → c.put ≡ wire c.events
put_is_wire c h = sym (append-nil c.put) ∙ ap (λ t. c.put ++ t) (sym (no_octet c.held h)) ∙ c.all

pub block_skipped :
    (es : List (Option ℕ)) (more : Bytes)
    → announced (wire es ++ ((empty_message ++ trailer) ++ more)) ≡ announced (wire es ++ more)
block_skipped es more =
    announced-wire es ((empty_message ++ trailer) ++ more) ∙ sym (announced-wire es more)

abbrev pub marking_deflates : Deflates announcing marking marking_bounded
marking_deflates = record {
  fresh = λ level bits. (refl, refl, refl, refl);
  restarted = λ c. (refl, refl, refl, refl);
  flushed = λ c h. rw (put_is_wire c h) (
    tt,
    ap announced (sym (append-nil (wire c.events)))
        ∙ announced-wire c.events []
        ∙ append-nil (octets c.events),
    (c.events, refl),
  );
  anew = λ c more h s. rw (put_is_wire c h) (tt, announced-wire c.events more);
  empty_block = λ c more h s. rw (put_is_wire c h) (tt, block_skipped c.events more);
}
