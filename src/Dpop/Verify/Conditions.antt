-- ===== src/Dpop/Verify/Conditions.antt =====
-- When a proof is fresh and aimed at the URL of a request.
use onyxia_backend.Common.{
  ℕ, ◌+◌, ◌*◌, ◌≤◌, ◌<◌, String, ◌≡◌, suc, true, Error, Result, ok, err, >>=-eq-ok, arith, eq_iff,
}
use onyxia_backend.Common.Int.{ℤ, pos, negsuc}
use onyxia_backend.Common.Text.{equal_fold}
use onyxia_backend.Dpop.Time.{second, max_proof_age, max_clock_skew}
use onyxia_backend.Dpop.Request.{Url}
use onyxia_backend.Dpop.Verify.{Jose, is_abs, check_issued_at, match_htu, failure, absolute}

-- A proof may be used from a minute before its time of issue, which may lie before 1970 but is not
-- the moment at which 1970 begins, to five minutes after it.
pub IsFresh : ℤ → ℕ → Type 0
IsFresh (pos n) now =
    (0 < n) × (n * second ≤ now + max_clock_skew) × (now ≤ n * second + max_proof_age)
IsFresh (negsuc n) now = now + suc n * second ≤ max_proof_age

pub check_issued_at-IsFresh :
    (iat : ℤ) (now : ℕ) → check_issued_at iat now ≡ ok tt → IsFresh iat now
unfolding check_issued_at IsFresh
check_issued_at-IsFresh (pos n) now h = (ground arith, ground arith, ground arith)
check_issued_at-IsFresh (negsuc n) now h = ground arith

pub IsFresh-check_issued_at :
    (iat : ℤ) (now : ℕ) → IsFresh iat now → check_issued_at iat now ≡ ok tt
unfolding check_issued_at IsFresh
IsFresh-check_issued_at (pos n) now f = ground arith
IsFresh-check_issued_at (negsuc n) now f = ground arith

-- Two moments at which the same proof is fresh are at most six minutes apart.
pub IsFresh-window :
    (iat : ℤ) (m n : ℕ) → IsFresh iat m → IsFresh iat n → n ≤ m + (max_clock_skew + max_proof_age)
unfolding IsFresh
IsFresh-window (pos s) m n f g = ground arith
IsFresh-window (negsuc s) m n f g = omega arith

module _ (j : Jose) where
  open j use {Token, Key, parse_signed, headers, is_public, claims, thumbprint}
  open j use {access_token_hash, parse_url}

  -- The target of a proof is the URL of the request: scheme and host up to case, path and query
  -- exactly.
  pub record IsTarget (htu url : String) : Type 0 where
    pub claimed : Url
    pub expected : Url
    pub parsed : parse_url htu ≡ ok claimed
    pub parsed_url : parse_url url ≡ ok expected
    pub claimed_abs : is_abs claimed ≡ true
    pub expected_abs : is_abs expected ≡ true
    pub scheme : equal_fold claimed.scheme expected.scheme ≡ true
    pub host : equal_fold claimed.host expected.host ≡ true
    pub path : claimed.path ≡ expected.path
    pub query : claimed.raw_query ≡ expected.raw_query

  absolute-eq-ok :
      (r : Result Url) (e : Error) {u : Url} → absolute r e ≡ ok u → (r ≡ ok u) × (is_abs u ≡ true)
  unfolding absolute
  absolute-eq-ok (err e') e h = cc
  absolute-eq-ok (ok v) e h = ground arith

  pub match_htu-IsTarget : (htu url : String) → match_htu j htu url ≡ ok tt → IsTarget htu url
  unfolding match_htu
  match_htu-IsTarget htu url h =
      let (c, pc, r) = >>=-eq-ok (absolute (parse_url htu) (failure "invalid dpop htu")) _ h in
      let (e, pe, t) = >>=-eq-ok (absolute (parse_url url) (failure "invalid expected htu")) _ r in
      let hc = absolute-eq-ok (parse_url htu) (failure "invalid dpop htu") pc in
      let he = absolute-eq-ok (parse_url url) (failure "invalid expected htu") pe in
      record {
        claimed = c;
        expected = e;
        parsed = hc.0;
        parsed_url = he.0;
        claimed_abs = hc.1;
        expected_abs = he.1;
        scheme = ground arith;
        host = ground arith;
        path = ground (arith, eq_iff c.path e.path);
        query = ground (arith, eq_iff c.raw_query e.raw_query);
      }

  pub IsTarget-match_htu : (htu url : String) → IsTarget htu url → match_htu j htu url ≡ ok tt
  unfolding match_htu
  IsTarget-match_htu htu url t = ground (
    arith,
    eq_iff t.claimed.path t.expected.path,
    eq_iff t.claimed.raw_query t.expected.raw_query,
  )
