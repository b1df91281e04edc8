-- ===== src/Dpop/Jti/Replay.antt =====
-- What the cache remembers: an entry outlives every eviction up to its expiry.
use onyxia_backend.Common.{
  ℕ, ◌+◌, ◌≤◌, String, ◌≡◌, refl, Bool, false, Option, none, some, [], ◌∷◌, Dict, lookup,
  lookup-insert, HasDistinctKeys, insert-HasDistinctKeys, ltb, leb, not, ◌&&◌, ◌==◌, eq_iff,
  if◌then◌else◌, arith,
}
use onyxia_backend.Dpop.Time.{jti_ttl}
use onyxia_backend.Dpop.Jti.{JtiCache, kept, seen}

abbrev pub keep : ℕ → Option ℕ → Option ℕ
keep now none = none
keep now (some exp) = if ltb exp now then none else some exp

pub lookup-kept :
    (now : ℕ) (k : String) (m : Dict ℕ)
    → HasDistinctKeys m
    → lookup k (kept now m) ≡ keep now (lookup k m)
unfolding lookup kept
lookup-kept now k [] h = refl
lookup-kept now k ((j, e) ∷ m) h = ground (arith, eq_iff j k, lookup-kept now k m h.1)

pub kept-HasDistinctKeys : (now : ℕ) (m : Dict ℕ) → HasDistinctKeys m → HasDistinctKeys (kept now m)
unfolding kept
kept-HasDistinctKeys now [] h = tt
kept-HasDistinctKeys now ((j, e) ∷ m) h =
    ground (arith, lookup-kept now j m h.1, kept-HasDistinctKeys now m h.1)

abbrev pub IsWellFormed : JtiCache → Type 0
IsWellFormed c = HasDistinctKeys c.entries

-- Whether an entry is there and has not expired at the time `now`.
abbrev pub is_live : ℕ → Option ℕ → Bool
is_live now none = false
is_live now (some exp) = leb now exp

module _ (jti : String) (now later : ℕ) (c : JtiCache) (w : IsWellFormed c) where
  pub seen-IsWellFormed : IsWellFormed (seen jti now later c).1
  unfolding seen
  seen-IsWellFormed = ground (
    arith,
    kept-HasDistinctKeys now c.entries w,
    insert-HasDistinctKeys jti (later + jti_ttl) (kept now c.entries),
  )

  -- A call answers that its key is known exactly when the key has an entry that has not expired.
  pub seen-eq-is_live : (seen jti now later c).0 ≡ is_live now (lookup jti c.entries)
  unfolding seen
  seen-eq-is_live = ground (arith, lookup-kept now jti c.entries w)

  -- From `now` on, a call that answers no makes its key live up to the expiry, and nothing else
  -- changes; a call that answers yes changes nothing.
  pub is_live-seen :
      (k : String) (at : ℕ)
      → now ≤ at
      → is_live at (lookup k (seen jti now later c).1.entries) ≡ (
          if not (seen jti now later c).0 && jti == k
          then leb at (later + jti_ttl)
          else is_live at (lookup k c.entries))
  unfolding seen
  is_live-seen k at h = ground (
    arith,
    lookup-kept now k c.entries w,
    lookup-kept now jti c.entries w,
    lookup-insert jti k (later + jti_ttl) (kept now c.entries),
    eq_iff jti k,
  )
