-- ===== src/Fuzz/Fragments.antt =====
-- fuzz/src/lib.rs: the fragment records of an input.
pub mod Correct
use ws_pmd_rs.Base.{
  ℕ, zero, suc, ◌+◌, ◌*◌, ◌^◌, ◌%◌, Bool, ◌==◌, [], ◌∷◌, List, Bytes, Option, none, some, length,
  take, drop, min, and_then,
}

abbrev pub max_limit : ℕ
max_limit = 2 ^ 20

-- A record's flags, its ceiling and the length of its payload: `HEADER` octets.
abbrev pub header : ℕ
header = 6

pub record Fragment : Type 0 where
  pub bytes : Bytes
  pub final_fragment : Bool
  pub limit : ℕ

-- The ceiling of three octets. They do not overlap, so `|` is a sum.
unfoldable pub ceiling : ℕ → ℕ → ℕ → ℕ
ceiling a b c = (a * 2 ^ 16 + b * 2 ^ 8 + c) % (max_limit + 1)

-- `u16::from_be_bytes`
abbrev pub from_be_bytes : ℕ → ℕ → ℕ
from_be_bytes a b = a * 2 ^ 8 + b

-- The record at the front: a payload that is cut short is clamped, not refused.
unfoldable pub fragment_of : ℕ → ℕ → ℕ → ℕ → ℕ → ℕ → Bytes → Fragment
fragment_of flags a b c d e body = record {
  bytes = take (min (from_be_bytes d e) (length body)) body;
  final_fragment = flags % 2 == 1;
  limit = ceiling a b c;
}

-- The loop of `fragments`, for at most `fuel` records.
unfoldable pub records : ℕ → Bytes → Option (List Fragment)
records zero rest = none
records (suc fuel) (flags ∷ a ∷ b ∷ c ∷ d ∷ e ∷ body) =
    and_then (records fuel (drop (min (from_be_bytes d e) (length body)) body))
      (λ more. some (fragment_of flags a b c d e body ∷ more))
records (suc fuel) short = some []

-- Every record is longer than nothing, so a round for each octet, and one more, is enough.
unfoldable pub fragments : Bytes → Option (List Fragment)
fragments input = records (suc (length input)) input
