-- ===== src/Encoder/History.antt =====
-- src/encoder.rs: whose history a compressor has, against what was declared sent.
pub mod Follows
pub mod Built
use ws_pmd_rs.Base.{
  ℕ, ◌≡◌, refl, ap, ◌∙◌, sym, Bool, true, false, [], ◌∷◌, ◌++◌, List, append-nil, append_assoc,
  Bytes, Option, none, some, some-injective, and_then-eq-some, if◌then◌else◌, if-arms, Outcome, ok,
  err, panic,
}
use ws_pmd_rs.Error.{CodecError}
use ws_pmd_rs.Encoder.Backend.{Backend}
use ws_pmd_rs.Encoder.Drive.{Produced, produce, produce_non_final}
use ws_pmd_rs.Encoder.Transaction.{
  Encoder, Phase, free, prepared, streaming, fragment, final_fragment, State, Called, hold,
  overwritten, as_bytes_mut, prepare_with, prepare_message, begin_with, begin_streaming_message,
  prepare_non_final_fragment, prepare_final_fragment, commit, reset_to_plain, commit_fragment,
}
use ws_pmd_rs.Encoder.Steps.{
  Step, message, begin, next_fragment, last_fragment, commit_message, send_plain, commit_next,
  commit_last, write_bytes, drop, Steps, done, step, Owned, Steps-Owned,
}

-- A payload that is compressed in one call, and whether it ends its message.
pub record Chunk : Type 0 where
  pub payload : Bytes
  pub last : Bool

-- What was declared sent, and the chunk that is under way.
pub record Log : Type 0 where
  pub sent : List Chunk
  pub candidate : Chunk

abbrev committed : Log → Log
committed l = record l { sent = l.sent ++ l.candidate ∷ [] }

module _ (B : Backend) where
  -- No message is in the window of the compressor.
  pub data IsFresh (c : B.Compress) : Type 0 where
    built : (level bits : ℕ) → c ≡ B.new_with_window_bits level false bits → IsFresh c
    was_reset : (d : B.Compress) → c ≡ B.reset d → IsFresh c

  -- What the encoder calls for a chunk.
  abbrev pub compress_chunk : ℕ → B.Compress → Chunk → Option (Produced B)
  compress_chunk fuel c k =
      if k.last then produce B fuel c k.payload else produce_non_final B fuel c k.payload

  -- The compressor has compressed these chunks in this order since it was fresh, and no other.
  pub data History : B.Compress → List Chunk → Type 0 where
    fresh : {c : B.Compress} {chunks : List Chunk} → IsFresh c → chunks ≡ [] → History c chunks
    after :
        {c d : B.Compress} {chunks more : List Chunk} (fuel : ℕ) (k : Chunk) (p : Produced B)
        (b : Bytes)
        → History c chunks
        → compress_chunk fuel c k ≡ some p
        → p.message ≡ ok b
        → d ≡ p.compressor
        → more ≡ chunks ++ k ∷ []
        → History d more

  -- The compressor has compressed a tail of what was sent.
  pub record Recent (c : B.Compress) (sent : List Chunk) : Type 0 where
    pub older : List Chunk
    pub recent : List Chunk
    pub is_tail : sent ≡ older ++ recent
    pub history : History c recent

  IsFresh-Recent : (c : B.Compress) (sent : List Chunk) → IsFresh c → Recent c sent
  IsFresh-Recent c sent f = record {
    older = sent;
    recent = [];
    is_tail = sym (append-nil sent);
    history = fresh f refl;
  }

  Recent-after :
      (fuel : ℕ) (c : B.Compress) (k : Chunk) (p : Produced B) (b : Bytes) (sent : List Chunk)
      → Recent c sent
      → compress_chunk fuel c k ≡ some p
      → p.message ≡ ok b
      → Recent p.compressor (sent ++ k ∷ [])
  Recent-after fuel c k p b sent r h m = record {
    older = r.older;
    recent = r.recent ++ k ∷ [];
    is_tail = ap (λ t. t ++ k ∷ []) r.is_tail ∙ append_assoc r.older r.recent (k ∷ []);
    history = after fuel k p b r.history h m refl refl;
  }

  -- What a step adds to the log: a prepare notes its payload, a commit declares it sent.
  abbrev pub log_step : {s t : State B} → Step B s t → Log → Log
  log_step (message fuel payload r p h e) l = record l {
    candidate = record { payload = payload; last = true };
  }
  log_step (begin p e) l = l
  log_step (next_fragment c fuel payload r p h e) l = record l {
    candidate = record { payload = payload; last = false };
  }
  log_step (last_fragment c fuel payload r p h e) l = record l {
    candidate = record { payload = payload; last = true };
  }
  log_step (commit_message c b p e) l = committed l
  log_step (send_plain c b p e) l = l
  log_step (commit_next c b p e) l = committed l
  log_step (commit_last c b p e) l = committed l
  log_step (write_bytes written e) l = l
  log_step (drop e) l = l

  abbrev pub log_steps : {s t : State B} → Steps B s t → Log → Log
  log_steps (done e) l = l
  log_steps (step before last) l = log_step last (log_steps before l)

  -- An encoder with its compressor at hand: the history is a tail of what was sent, and none at all
  -- where the agreement resets between messages.
  pub record Synchronised (e : Encoder B) (c : B.Compress) (sent : List Chunk) : Type 0 where
    pub recent : Recent c sent
    pub clean : e.reset_between_messages ≡ true → IsFresh c

  abbrev pub FollowsIn : Encoder B → Phase B → Log → Type 0
  FollowsIn e free l = (c : B.Compress) → e.compressor ≡ some c → Synchronised e c l.sent
  FollowsIn e (prepared c b) l = Recent c (l.sent ++ l.candidate ∷ [])
  FollowsIn e (streaming c) l = Recent c l.sent
  FollowsIn e (fragment c b) l = Recent c (l.sent ++ l.candidate ∷ [])
  FollowsIn e (final_fragment c b) l = Recent c (l.sent ++ l.candidate ∷ [])

  -- Whatever holds the compressor: its history is a tail of what was sent, with the chunk under
  -- way.
  abbrev pub Follows : State B → Log → Type 0
  Follows s l = FollowsIn s.encoder s.phase l
