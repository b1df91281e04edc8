-- ===== src/Dpop/Verify.antt =====
-- internal/auth/oidc/dpop/verify.go: the checks of a DPoP proof.
pub mod Conditions
pub mod Accepted
pub mod NoReplay
use onyxia_backend.Common.{
  ℕ, ◌+◌, ◌-◌, ◌*◌, String, ◌≡◌, refl, Bool, true, false, Option, none, some, List, [], ◌∷◌, ltb,
  ◌==◌, not, ◌&&◌, ◌||◌, if◌then◌else◌, Error, errorf, Result, ok, err, ◌>>=◌, ◌>>◌, guard, suc,
}
use onyxia_backend.Common.Any.{Any, as_string}
use onyxia_backend.Common.Int.{ℤ, pos, negsuc}
use onyxia_backend.Common.Text.{equal_fold, same}
use onyxia_backend.Dpop.Time.{second, max_proof_age, max_clock_skew}
use onyxia_backend.Dpop.Request.{Url}

pub record ProofClaims : Type 0 where
  pub htm : String
  pub htu : String
  pub iat : ℤ
  pub jti : String
  pub ath : String

-- A header of a signed token: the embedded key, and the value at `typ`.
pub record TokenHeader (Key : Type 0) : Type 0 where
  pub jwk : Option Key
  pub typ : Option Any

-- What the code takes from go-jose, net/url and crypto: parsing a signed token with one of the
-- listed algorithms, verifying it under a key, the thumbprint of a key and the hash of an access
-- token (both in base64url), and parsing a URL.
pub record Jose : Type 1 where
  pub Token : Type 0
  pub Key : Type 0
  pub parse_signed : String → Result Token
  pub headers : Token → List (TokenHeader Key)
  pub is_public : Key → Bool
  pub claims : Token → Key → Result ProofClaims
  pub thumbprint : Key → Result String
  pub access_token_hash : String → String
  pub parse_url : String → Result Url

abbrev pub failure : String → Error
failure text = errorf text []

abbrev is_abs : Url → Bool
is_abs u = not (u.scheme == "")

-- `header.ExtraHeaders[…].(string)`, empty if it is no text
abbrev typ_text : Option Any → String
typ_text none = ""
typ_text (some v) = elim (as_string v) [ none ↦ "" | some s ↦ s ]

absolute : Result Url → Error → Result Url
absolute (err e) e' = err e'
absolute (ok u) e' = if is_abs u then ok u else err e'

-- The comparison at the end of `matchHTU`
same_target : Url → Url → Bool
same_target h e =
    equal_fold h.scheme e.scheme
    && equal_fold h.host e.host
    && h.path == e.path
    && h.raw_query == e.raw_query

-- The tests on `iat`, which may lie before 1970
unfoldable pub check_issued_at : ℤ → ℕ → Result (Unit {0})
check_issued_at (pos n) now = do
  guard (not (same n 0)) (failure "dpop iat missing")
  guard (not (ltb (now + max_clock_skew) (n * second))) (failure "dpop iat in the future")
  guard (not (ltb (n * second + max_proof_age) now)) (failure "dpop proof too old")
check_issued_at (negsuc n) now =
    guard (not (ltb max_proof_age (now + suc n * second))) (failure "dpop proof too old")

module _ (j : Jose) where
  open j use {Token, Key, parse_signed, headers, is_public, claims, thumbprint}
  open j use {access_token_hash, parse_url}

  -- `matchHTU`
  unfoldable pub match_htu : String → String → Result (Unit {0})
  unfolding absolute same_target
  match_htu htu expected_url = do
    h ← absolute (parse_url htu) (failure "invalid dpop htu")
    e ← absolute (parse_url expected_url) (failure "invalid expected htu")
    guard (same_target h e) (failure "dpop htu mismatch")

  -- The first header and its key
  signing_key : List (TokenHeader Key) → Result (TokenHeader Key × Key)
  signing_key [] = err (failure "dpop proof missing jwk header")
  signing_key (h ∷ hs) = elim h.jwk [
    | none ↦ err (failure "dpop proof missing jwk header")
    | some key ↦ ok (h, key)
  ]

  -- `VerifyProof` up to the key: the signed token, its first header and the public key there
  signed_token : (proof : String) → Result (Token × TokenHeader Key × Key)
  unfolding signing_key
  signed_token proof = do
    jwt_token ← parse_signed proof
    (header, jwk) ← signing_key (headers jwt_token)
    guard (equal_fold (typ_text header.typ) "dpop+jwt")
        (failure "dpop proof missing or invalid typ header")
    guard (is_public jwk) (failure "dpop jwk must be public")
    ok (jwt_token, header, jwk)

  -- `VerifyProof` from the claims to the call of `checkJTI`
  checked_claims :
      (expected_method expected_url : String) (now : ℕ) → Token → Key → Result ProofClaims
  unfolding match_htu check_issued_at
  checked_claims expected_method expected_url now jwt_token jwk = do
    c ← claims jwt_token jwk
    guard (equal_fold c.htm expected_method) (failure "dpop htm mismatch")
    match_htu c.htu expected_url
    check_issued_at c.iat now
    guard (not (c.jti == "")) (failure "dpop jti missing")
    ok c

  unfoldable pub verified_claims :
      (proof expected_method expected_url : String) (now : ℕ) → Result (Key × ProofClaims)
  unfolding signed_token checked_claims
  verified_claims proof expected_method expected_url now = do
    (jwt_token, header, jwk) ← signed_token proof
    c ← checked_claims expected_method expected_url now jwt_token jwk
    ok (jwk, c)

  -- `VerifyProof` after that call
  unfoldable pub bound_key : (access_token : String) → Key → ProofClaims → Result String
  bound_key access_token jwk c = do
    guard (not (c.ath == "")) (failure "dpop ath missing")
    guard (c.ath == access_token_hash access_token) (failure "dpop ath mismatch")
    thumbprint jwk

  -- `VerifyProof`. `check_jti` says whether an identifier was seen before, and may keep a state;
  -- with `none` there is no such check.
  module _ {S : Type 0} where
    check_replay :
        Option (String → S → Bool × S) → String → Result (Key × ProofClaims) → S → Result String × S
    check_replay check_jti access_token (err e) s = (err e, s)
    check_replay none access_token (ok (jwk, c)) s = (bound_key access_token jwk c, s)
    check_replay (some check) access_token (ok (jwk, c)) s =
        let (replayed, s') = check c.jti s in
        (if replayed then err (failure "dpop jti replayed") else bound_key access_token jwk c, s')

    unfoldable pub verify_proof :
        (proof expected_method expected_url access_token : String) (now : ℕ)
        → Option (String → S → Bool × S)
        → S
        → Result String × S
    unfolding check_replay
    verify_proof proof expected_method expected_url access_token now check_jti =
        check_replay check_jti access_token (verified_claims proof expected_method expected_url now)
