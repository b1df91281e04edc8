-- ===== src/Dpop/Jti.antt =====
-- internal/auth/oidc/dpop/jti.go: the cache of proof identifiers. The mutex makes the calls of
-- `Seen` a sequence, so a run is a list of calls; each reads the clock twice.
pub mod Replay
pub mod Refinement
pub mod Bounded
use onyxia_backend.Common.{
  ℕ, ◌+◌, String, Bool, true, false, Option, none, some, List, [], ◌∷◌, Dict, lookup, insert, ltb,
  if◌then◌else◌,
}
use onyxia_backend.Dpop.Time.{jti_ttl}

pub record JtiCache : Type 0 where
  pub entries : Dict ℕ

abbrev pub new_jti_cache : JtiCache
new_jti_cache = record { entries = [] }

-- The entries that `evict` keeps at the time `now`: it deletes a key if `now.After(exp)`.
pub kept : ℕ → Dict ℕ → Dict ℕ
kept now [] = []
kept now ((k, exp) ∷ m) = let rest = kept now m in if ltb exp now then rest else (k, exp) ∷ rest

pub evict : ℕ → JtiCache → JtiCache
unfolding kept
evict now c = record { entries = kept now c.entries }

-- `found` is what the cache holds for `jti` after the eviction.
pub record_unless_found : Option ℕ → String → ℕ → JtiCache → Bool × JtiCache
record_unless_found (some exp) jti later c = (true, c)
record_unless_found none jti later c =
    (false, record { entries = insert jti (later + jti_ttl) c.entries })

-- `Seen`; `now` is the clock that `evict` reads, `later` the one from which the expiry counts.
unfoldable pub seen : String → (now later : ℕ) → JtiCache → Bool × JtiCache
unfolding evict record_unless_found lookup insert
seen jti now later c =
    let c' = evict now c in record_unless_found (lookup jti c'.entries) jti later c'

pub record Call : Type 0 where
  pub jti : String
  pub now : ℕ
  pub later : ℕ

-- The cache after a sequence of calls, and the answers given.
unfoldable pub run : List Call → JtiCache → List Bool × JtiCache
run [] c = ([], c)
run (q ∷ qs) c =
    let (answer, c') = seen q.jti q.now q.later c in
    let (answers, last) = run qs c' in (answer ∷ answers, last)
