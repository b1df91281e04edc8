-- ===== src/Dpop/Time.antt =====
-- The constants of internal/auth/oidc/dpop/verify.go. Times and durations count nanoseconds, times
-- from the Unix epoch; a reading of the clock is a natural number.
use onyxia_backend.Common.{ℕ, ◌+◌, ◌*◌}

abbrev pub second : ℕ
second = 1000000000

abbrev pub minute : ℕ
minute = 60 * second

abbrev pub max_proof_age : ℕ
max_proof_age = 5 * minute

abbrev pub max_clock_skew : ℕ
max_clock_skew = 60 * second

abbrev pub jti_ttl : ℕ
jti_ttl = max_proof_age + max_clock_skew
