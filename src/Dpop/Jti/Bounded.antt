-- ===== src/Dpop/Jti/Bounded.antt =====
-- How large the cache of proof identifiers becomes.
use onyxia_backend.Common.{
  ℕ, zero, suc, ◌+◌, ◌≤◌, String, Option, none, some, List, [], ◌∷◌, Dict, lookup, insert, length,
  ltb, if◌then◌else◌, arith,
}
use onyxia_backend.Dpop.Time.{jti_ttl}
use onyxia_backend.Dpop.Jti.{
  JtiCache, new_jti_cache, kept, evict, record_unless_found, seen, Call, run,
}

-- The calls whose identifier would not have expired at the time `now`
abbrev pub recent : ℕ → List Call → ℕ
recent now [] = zero
recent now (q ∷ qs) = if ltb (q.later + jti_ttl) now then recent now qs else suc (recent now qs)

length-kept : (now : ℕ) (m : Dict ℕ) → length (kept now m) ≤ length m
unfolding kept
length-kept now [] = ground arith
length-kept now ((k, exp) ∷ m) = ground (arith, length-kept now m)

kept-kept : (now at : ℕ) (m : Dict ℕ) → length (kept at (kept now m)) ≤ length (kept at m)
unfolding kept
kept-kept now at [] = ground arith
kept-kept now at ((k, exp) ∷ m) = ground (arith, kept-kept now at m)

kept-insert :
    (at : ℕ) (k : String) (exp : ℕ) (m : Dict ℕ)
    → length (kept at (insert k exp m))
      ≤ (if ltb exp at then length (kept at m) else suc (length (kept at m)))
unfolding kept insert
kept-insert at k exp [] = ground arith
kept-insert at k exp ((j, e) ∷ m) = ground (arith, kept-insert at k exp m)

length-insert : (k : String) (exp : ℕ) (m : Dict ℕ) → length (insert k exp m) ≤ suc (length m)
unfolding insert
length-insert k exp [] = ground arith
length-insert k exp ((j, e) ∷ m) = ground (arith, length-insert k exp m)

recorded_size :
    (o : Option ℕ) (jti : String) (later at : ℕ) (c : JtiCache)
    → length (kept at (record_unless_found o jti later c).1.entries) ≤ (
        if ltb (later + jti_ttl) at
        then length (kept at c.entries)
        else suc (length (kept at c.entries)))
unfolding record_unless_found
recorded_size (some exp) jti later at c = ground arith
recorded_size none jti later at c = kept-insert at jti (later + jti_ttl) c.entries

kept-run :
    (at : ℕ) (qs : List Call) (c : JtiCache)
    → length (kept at (run qs c).1.entries) ≤ length (kept at c.entries) + recent at qs
unfolding run seen evict
kept-run at [] c = ground arith
kept-run at (q ∷ qs) c = ground (
  arith,
  kept-run at qs (seen q.jti q.now q.later c).1,
  recorded_size (lookup q.jti (kept q.now c.entries)) q.jti q.later at (evict q.now c),
  kept-kept q.now at c.entries,
)

recorded_length :
    (o : Option ℕ) (jti : String) (later : ℕ) (c : JtiCache)
    → length (record_unless_found o jti later c).1.entries ≤ suc (length c.entries)
unfolding record_unless_found
recorded_length (some exp) jti later c = ground arith
recorded_length none jti later c = length-insert jti (later + jti_ttl) c.entries

-- However many calls there were, in whatever order the clock was read, after a call the cache has at
-- most one entry for it and one for each earlier call whose identifier has not expired when the call
-- evicts: what is older takes no room.
pub length-seen :
    (qs : List Call) (q : Call)
    → length (seen q.jti q.now q.later (run qs new_jti_cache).1).1.entries ≤ suc (recent q.now qs)
unfolding seen evict
length-seen qs q = ground (
  arith,
  recorded_length (lookup q.jti (kept q.now (run qs new_jti_cache).1.entries)) q.jti q.later
      (evict q.now (run qs new_jti_cache).1),
  kept-run q.now qs new_jti_cache,
)
