-- ===== src/Tests/Dpop.antt =====
-- Proofs and the replay cache at concrete inputs.
use onyxia_backend.Common.{
  suc, length, ◌≤◌, ℕ, ◌≡◌, ◌≢◌, ◌↔◌, refl, true, false, some, List, [], ◌∷◌, ok, arith,
}
use onyxia_backend.Dpop.Jti.{new_jti_cache, seen, Call, run}
use onyxia_backend.Dpop.Jti.Bounded.{recent, length-seen}
use onyxia_backend.Dpop.Jti.Refinement.{run_contract, run-eq-run_contract}
use onyxia_backend.Dpop.Verify.{verify_proof, verified_claims, bound_key}
use onyxia_backend.Dpop.Verify.Accepted.{IsValidProof, verify_proof_iff}
use onyxia_backend.Dpop.Verify.NoReplay.{Use, verify_with, no_second_use}
use onyxia_backend.Common.Text.{equal_fold}
use onyxia_backend.Tests.Fixtures.{jose}

abbrev at : ℕ → Use
at t = record {
  method = "get";
  url = "https://h/p";
  access_token = "t";
  now = t;
  evicted_at = t;
  recorded_at = t;
}

abbrev early : Use
early = at 1010000000000

abbrev late : Use
late = at 1300000000000

abbrev others : List Call
others = record { jti = "other"; now = 1020000000000; later = 1020000000000 } ∷ []

accepted_once : (verify_with jose "proof" early new_jti_cache).0 ≡ ok "k"
unfolding verify_proof verified_claims bound_key seen equal_fold
accepted_once = refl

no_second_use_example :
    (verify_with jose "proof" late
      (run others (verify_with jose "proof" early new_jti_cache).1).1).0
    ≢ ok "k"
no_second_use_example =
    no_second_use jose "proof" early late new_jti_cache others tt accepted_once (omega arith)
      (omega arith) (omega arith) "k"

verify_proof_iff_example :
    ((verify_proof jose "proof" "GET" "https://h/p" "t" 1010000000000
        (some (λ jti. seen jti 1010000000000 1010000000000))
        new_jti_cache).0
      ≡ ok "k")
    ↔ ((v : IsValidProof jose "proof" "GET" "https://h/p" "t" 1010000000000 "k") × ((seen
            v.claimed.jti 1010000000000 1010000000000 new_jti_cache).0
          ≡ false))
verify_proof_iff_example =
    verify_proof_iff jose "proof" "GET" "https://h/p" "t" 1010000000000 "k"
      (λ jti. seen jti 1010000000000 1010000000000) new_jti_cache

abbrev calls : List Call
calls =
    record { jti = "a"; now = 1; later = 2 }
    ∷ record { jti = "a"; now = 360000000002; later = 360000000002 }
    ∷ record { jti = "a"; now = 360000000003; later = 360000000003 }
    ∷ []

-- The second call comes at the end of the validity, the third after it.
three_answers : (run calls new_jti_cache).0 ≡ false ∷ true ∷ false ∷ []
unfolding run seen
three_answers = refl

run-eq-run_contract_example : (run calls new_jti_cache).0 ≡ run_contract calls []
run-eq-run_contract_example = run-eq-run_contract calls (omega arith)

abbrev first_call : Call
first_call = record { jti = "a"; now = 1; later = 2 }

abbrev last_call : Call
last_call = record { jti = "a"; now = 360000000002; later = 360000000002 }

abbrev between : List Call
between = record { jti = "b"; now = 5; later = 5 } ∷ []

fresh : (seen "a" 1 2 new_jti_cache).0 ≡ false
unfolding seen
fresh = refl

-- Of the three earlier calls, the first has expired when the last one evicts.
length-seen_example :
    length (seen "z" 720000000000 720000000000 (run calls new_jti_cache).1).1.entries
    ≤ suc (recent 720000000000 calls)
length-seen_example =
    length-seen calls (record { jti = "z"; now = 720000000000; later = 720000000000 })
