-- ===== src/Tests/Release.antt =====
-- Two installations in the background.
use onyxia_backend.Common.{
  ℕ, zero, suc, ◌*◌, ◌<◌, ◌≤◌, ◌≡◌, refl, List, [], ◌∷◌, errorf, Result, ok, err, arith,
}
use onyxia_backend.Services.Release.{
  Event, Receiver, global, per_call, on_start, on_error, callbacks,
}
use onyxia_backend.Services.Release.Reports
use onyxia_backend.Services.Release.Reports.{
  Step, call, Reach, start, later, heard, update, told_to, each_twice, HearsOutcome, all_reported,
}

-- The installation of the second of two releases fails.
abbrev outcome : ℕ → Result (Unit {0})
outcome zero = ok tt
outcome (suc n) = err (errorf "timeout" [])

abbrev script : ℕ → List Event
script i = callbacks "r" "c" (outcome i)

abbrev first_call : Reports.System
first_call = record {
  pending = update script 1 (
      on_start per_call "r" "c"
      ∷ on_error global "r" "c" (errorf "timeout" [])
      ∷ on_error per_call "r" "c" (errorf "timeout" [])
      ∷ []);
  trace = (1, on_start global "r" "c") ∷ [];
}

begun : Reach 2 script 1 first_call
unfolding callbacks
begun = later start (call 1 (on_start global "r" "c") _ (omega arith) refl refl)

all_reported_example :
    (1 ≤ 4 * 2)
    × (1 < 4 * 2 → (t : Reports.System) × Step 2 first_call t)
    × (◌≡◌ {A = ℕ} 1 (4 * 2)
        → (i : ℕ) → i < 2
        → ((to : Receiver)
            → HearsOutcome "r" "c" (outcome i) to (told_to to (heard i first_call.trace)))
          × (heard i first_call.trace ≡ each_twice (told_to global (heard i first_call.trace))))
all_reported_example = all_reported 2 (λ i. "r") (λ i. "c") outcome begun
