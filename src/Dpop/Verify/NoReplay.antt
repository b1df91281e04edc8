-- ===== src/Dpop/Verify/NoReplay.antt =====
-- A proof that was accepted once is not accepted again: its identifier is remembered for as long as
-- its time of issue can pass the test on its age.
use mathlib.Core.Path.{subst}
use onyxia_backend.Common.{
  ℕ, ◌+◌, ◌≤◌, String, ◌≡◌, ◌≢◌, true, false, List, Result, ok, All, arith, some, ap, sym,
}
use onyxia_backend.Common.Int.{ℤ}
use onyxia_backend.Dpop.Time.{jti_ttl}
use onyxia_backend.Dpop.Jti.{JtiCache, seen, Call, run}
use onyxia_backend.Dpop.Jti.Replay.{IsWellFormed}
use onyxia_backend.Dpop.Jti.Refinement.{seen_again}
use onyxia_backend.Dpop.Verify.{Jose, verify_proof}
use onyxia_backend.Dpop.Verify.Conditions.{IsFresh, IsFresh-window}
use onyxia_backend.Dpop.Verify.Accepted.{IsValidProof, verify_proof_iff, accepted_state}

-- One use of a proof: the request, the clock that `VerifyProof` is given, and the two that `Seen`
-- reads.
pub record Use : Type 0 where
  pub method : String
  pub url : String
  pub access_token : String
  pub now : ℕ
  pub evicted_at : ℕ
  pub recorded_at : ℕ

abbrev pub verify_with : (j : Jose) → String → Use → JtiCache → Result String × JtiCache
verify_with j proof u =
    verify_proof j proof u.method u.url u.access_token u.now
      (some (λ jti. seen jti u.evicted_at u.recorded_at))

module _ (j : Jose) where
  -- Two valid uses of one proof have the same claims.
  same_claims :
      (proof : String) (p q : Use) {a b : String}
      → (v : IsValidProof j proof p.method p.url p.access_token p.now a)
      → (w : IsValidProof j proof q.method q.url q.access_token q.now b) → v.claimed ≡ w.claimed
  same_claims proof p q v w = ground (arith, v.signed, w.signed, v.checked, w.checked)

  fresh_window :
      {iat iat' : ℤ} (m n : ℕ) → iat ≡ iat' → IsFresh iat m → IsFresh iat' n → n ≤ m + jti_ttl
  fresh_window {iat} {iat'} m n e f g =
      omega (arith, IsFresh-window iat' m n (subst (λ i. IsFresh i m) e f) g)

  module _ (proof : String) (p q : Use) (c : JtiCache) (between : List Call) where
    first_then_second :
        {a b : String}
        → IsWellFormed c
        → (v : IsValidProof j proof p.method p.url p.access_token p.now a)
        → (v' : IsValidProof j proof q.method q.url q.access_token q.now b)
        → (seen v.claimed.jti p.evicted_at p.recorded_at c).0 ≡ false
        → p.evicted_at ≤ q.evicted_at
        → All (λ call. call.now ≤ q.evicted_at) between
        → q.evicted_at + p.now ≤ q.now + p.recorded_at
        → (seen v'.claimed.jti q.evicted_at q.recorded_at
            (run between (seen v.claimed.jti p.evicted_at p.recorded_at c).1).1).0
          ≡ true
    first_then_second w v v' new order bound lag =
        let same = same_claims proof p q v v' in
        let window =
          fresh_window p.now q.now (ap (λ c. c.iat) same) v.checked.fresh v'.checked.fresh in
        seen_again (record { jti = v.claimed.jti; now = p.evicted_at; later = p.recorded_at })
          between (record { jti = v'.claimed.jti; now = q.evicted_at; later = q.recorded_at }) c w
          new (ap (λ c. c.jti) (sym same)) order (omega arith) bound

  -- Let a proof be accepted once, with a cache in which no key stands twice, and let any calls of
  -- the cache come between. Then no use of the proof is accepted, whatever its method, URL and
  -- access token, if its eviction reads the clock no earlier than those calls do, and follows the
  -- reading for the age no later than the first use recorded the identifier after its own.
  pub no_second_use :
      (proof : String) (p q : Use) (c : JtiCache) (between : List Call) {a : String}
      → IsWellFormed c
      → (verify_with j proof p c).0 ≡ ok a
      → p.evicted_at ≤ q.evicted_at
      → All (λ call. call.now ≤ q.evicted_at) between
      → q.evicted_at + p.now ≤ q.now + p.recorded_at
      → (b : String) → (verify_with j proof q (run between (verify_with j proof p c).1).1).0 ≢ ok b
  no_second_use proof p q c between {a} w first order bound lag b again =
      let check = λ (jti : String). seen jti p.evicted_at p.recorded_at in
      let check' = λ (jti : String). seen jti q.evicted_at q.recorded_at in
      let v = (verify_proof_iff j proof p.method p.url p.access_token p.now a check c).0 first in
      let after = accepted_state j proof p.method p.url p.access_token p.now a check c v.0 in
      let v' =
        (verify_proof_iff j proof q.method q.url q.access_token q.now b check'
            (run between (verify_with j proof p c).1).1).0
          again in
      let known = first_then_second proof p q c between w v.0 v'.0 v.1 order bound lag in
      cc (known, after, v'.1)
