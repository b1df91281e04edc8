-- ===== src/Dpop/Jti/Refinement.antt =====
-- The cache against its contract: a history that forgets nothing.
use onyxia_backend.Common.{
  ℕ, ◌+◌, ◌≤◌, String, ◌≡◌, refl, Bool, true, false, Option, List, [], ◌∷◌, lookup, leb, ◌&&◌, ◌||◌,
  ◌==◌, eq_iff, if◌then◌else◌, All, arith, ◌∙◌,
}
use mathlib.Core.Path.{ap₂}
use onyxia_backend.Dpop.Time.{jti_ttl}
use onyxia_backend.Dpop.Jti.{JtiCache, new_jti_cache, seen, Call, run}
use onyxia_backend.Dpop.Jti.Replay.{
  IsWellFormed, is_live, seen-IsWellFormed, seen-eq-is_live, is_live-seen,
}

-- The contract: the accepted identifiers with the ends of their validity, nothing ever removed.
abbrev pub History : Type 0
History = List (String × ℕ)

unfoldable pub replayed : String → ℕ → History → Bool
replayed jti now [] = false
replayed jti now ((j, end) ∷ h) = (j == jti && leb now end) || replayed jti now h

unfoldable pub run_contract : List Call → History → List Bool
run_contract [] h = []
run_contract (q ∷ qs) h =
    let known = replayed q.jti q.now h in
    let h' = if known then h else (q.jti, q.later + jti_ttl) ∷ h in known ∷ run_contract qs h'

-- The clock never goes back: each call starts at `from` or later, and after the one before it.
abbrev pub IsMonotone : ℕ → List Call → Type 0
IsMonotone from [] = Unit
IsMonotone from (q ∷ qs) = (from ≤ q.now) × IsMonotone q.now qs

abbrev Matches : ℕ → JtiCache → History → Type 0
Matches from c h =
    (jti : String) (at : ℕ) → from ≤ at → is_live at (lookup jti c.entries) ≡ replayed jti at h

replayed_later :
    (jti : String) (now at : ℕ) (h : History)
    → now ≤ at
    → replayed jti now h ≡ false
    → replayed jti at h ≡ false
unfolding replayed
replayed_later jti now at [] le e = refl
replayed_later jti now at ((j, end) ∷ h) le e = ground (arith, replayed_later jti now at h le)

abbrev after : Call → History → History
after q h = if replayed q.jti q.now h then h else (q.jti, q.later + jti_ttl) ∷ h

Matches-after :
    (from : ℕ) (q : Call) (c : JtiCache) (h : History)
    → IsWellFormed c
    → from ≤ q.now
    → Matches from c h
    → Matches q.now (seen q.jti q.now q.later c).1 (after q h)
unfolding replayed
Matches-after from q c h w le m jti at lt = ground (
  arith,
  is_live-seen q.jti q.now q.later c w jti at lt,
  seen-eq-is_live q.jti q.now q.later c w,
  m q.jti q.now le,
  m jti at,
  replayed_later q.jti q.now at h lt,
  eq_iff q.jti jti,
)

run-Matches :
    (from : ℕ) (qs : List Call) (c : JtiCache) (h : History)
    → IsWellFormed c
    → IsMonotone from qs
    → Matches from c h
    → (run qs c).0 ≡ run_contract qs h
unfolding run run_contract
run-Matches from [] c h w mono m = refl
run-Matches from (q ∷ qs) c h w mono m =
    ap₂ ◌∷◌ (seen-eq-is_live q.jti q.now q.later c w ∙ m q.jti q.now mono.0) (
      run-Matches q.now qs (seen q.jti q.now q.later c).1 (after q h)
        (seen-IsWellFormed q.jti q.now q.later c w) mono.1 (Matches-after from q c h w mono.0 m))

-- While the clock does not go back, a fresh cache, which forgets expired entries, gives to every
-- sequence of calls the answers of the contract, which forgets nothing: a call is told that its
-- identifier is known exactly when an earlier call was accepted with it at most `jti_ttl` ago.
pub run-eq-run_contract :
    (qs : List Call) → IsMonotone 0 qs → (run qs new_jti_cache).0 ≡ run_contract qs []
run-eq-run_contract qs mono =
    run-Matches 0 qs new_jti_cache [] tt mono (λ jti at le. unfold lookup replayed in refl)

is_live_mono : (now at : ℕ) (o : Option ℕ) → now ≤ at → is_live at o ≡ true → is_live now o ≡ true
is_live_mono now at o le live = ground arith

run-keeps-live :
    (jti : String) (at : ℕ) (qs : List Call) (c : JtiCache)
    → IsWellFormed c
    → All (λ q. q.now ≤ at) qs
    → is_live at (lookup jti c.entries) ≡ true
    → IsWellFormed (run qs c).1 × (is_live at (lookup jti (run qs c).1.entries) ≡ true)
unfolding run
run-keeps-live jti at [] c w bound live = (w, live)
run-keeps-live jti at (q ∷ qs) c w bound live =
    run-keeps-live jti at qs (seen q.jti q.now q.later c).1
      (seen-IsWellFormed q.jti q.now q.later c w) bound.1
      (ground (
        arith,
        is_live-seen q.jti q.now q.later c w jti at bound.0,
        seen-eq-is_live q.jti q.now q.later c w,
        is_live_mono q.now at (lookup jti c.entries) bound.0,
        eq_iff q.jti jti,
      ))

live_after :
    (p q : Call) (c : JtiCache)
    → IsWellFormed c
    → (seen p.jti p.now p.later c).0 ≡ false
    → q.jti ≡ p.jti
    → p.now ≤ q.now
    → q.now ≤ p.later + jti_ttl
    → is_live q.now (lookup q.jti (seen p.jti p.now p.later c).1.entries) ≡ true
live_after p q c w fresh same later in_time =
    ground (arith, is_live-seen p.jti p.now p.later c w q.jti q.now later, eq_iff p.jti q.jti)

-- Once a call is accepted, and whatever calls come between, a second call with the identifier is
-- told that it is known if it reads the clock at most `jti_ttl` after the first recorded it, and the
-- calls between read the clock no later than it.
pub seen_again :
    (first : Call) (between : List Call) (second_call : Call) (c : JtiCache)
    → IsWellFormed c
    → (seen first.jti first.now first.later c).0 ≡ false
    → second_call.jti ≡ first.jti
    → first.now ≤ second_call.now
    → second_call.now ≤ first.later + jti_ttl
    → All (λ q. q.now ≤ second_call.now) between
    → (seen second_call.jti second_call.now second_call.later
        (run between (seen first.jti first.now first.later c).1).1).0
      ≡ true
seen_again p qs q c w fresh same after_first in_time bound =
    let known =
      run-keeps-live q.jti q.now qs (seen p.jti p.now p.later c).1
        (seen-IsWellFormed p.jti p.now p.later c w) bound
        (live_after p q c w fresh same after_first in_time) in
    seen-eq-is_live q.jti q.now q.later (run qs (seen p.jti p.now p.later c).1).1 known.0 ∙ known.1
