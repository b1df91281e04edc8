-- ===== src/Oidc/Verify.antt =====
-- `VerifyRequest` of internal/auth/oidc/oidc.go and internal/auth/noauth/noauth.go.
pub mod Binding
pub mod Identity
use onyxia_backend.Common.{
  ℕ, String, ◌≡◌, refl, Bool, true, false, Option, none, some, List, [], ◌∷◌, Dict, ◌==◌, not, ◌&&◌,
  if◌then◌else◌, Error, errorf, Result, ok, err, ◌>>=◌, ◌>>◌, guard,
}
use onyxia_backend.Common.Any.{Any}
use onyxia_backend.UserContext.{Context, User, with_user, with_cnf_jkt}
use onyxia_backend.Dpop.Jti.{JtiCache, seen}
use onyxia_backend.Dpop.Request.{Url, Request, find_authorization, header_get, absolute_request_url}
use onyxia_backend.Dpop.Verify
use onyxia_backend.Dpop.Verify.{Jose, failure}
use onyxia_backend.Oidc.Claims.{
  Claims, validate_audience, extract_claim, extract_string_array, extract_cnf_jkt, without_claims,
}

-- `TokenVerifier` and `IDToken.Claims`, of go-oidc
pub record TokenVerifier : Type 1 where
  pub IdToken : Type 0
  pub verify : String → Result IdToken
  pub claims : IdToken → Result Claims

-- `Auth`, but for the verifier, which is a parameter, and the cache, which is passed along.
pub record Auth : Type 0 where
  pub username_claim : String
  pub groups_claim : String
  pub roles_claim : String
  pub audience : String

pub record TokenInfo : Type 0 where
  pub username : String
  pub groups : List String
  pub roles : List String
  pub attrs : Dict Any
  pub cnf_jkt : String

-- The readings of the clock while a proof is verified.
pub record Clock : Type 0 where
  pub now : ℕ
  pub evicted_at : ℕ
  pub recorded_at : ℕ

-- `applyUserContext`
unfoldable pub apply_user_context : Context → TokenInfo → Context
unfolding with_user with_cnf_jkt
apply_user_context ctx info =
    let ctx' = if not (info.cnf_jkt == "") then with_cnf_jkt ctx info.cnf_jkt else ctx in
    with_user ctx' (
      some (record {
        username = info.username;
        groups = info.groups;
        roles = info.roles;
        attributes = some info.attrs;
      }))

-- What `verifyToken` returns for the claims of a verified token.
unfoldable pub token_info : Auth → Claims → String → TokenInfo
unfolding extract_string_array without_claims extract_cnf_jkt
token_info a claims username = record {
  username = username;
  groups = extract_string_array claims a.groups_claim;
  roles = extract_string_array claims a.roles_claim;
  attrs = without_claims a.username_claim a.groups_claim a.roles_claim claims;
  cnf_jkt = extract_cnf_jkt claims;
}

-- The token of the request, and whether it came with the scheme DPoP
unfoldable pub authorization : Request → Option (String × Bool)
unfolding find_authorization
authorization r = elim (find_authorization r.header "DPoP") [
  | some t ↦ some (t, true)
  | none ↦ elim (find_authorization r.header "Bearer") [ some t ↦ some (t, false) | none ↦ none ]
]

module _ (v : TokenVerifier) (a : Auth) where
  -- `verifyToken`
  unfoldable pub verify_token : String → Result TokenInfo
  verify_token token_str = do
    token ← v.verify token_str
    claims ← v.claims token
    validate_audience a.audience claims
    username ← extract_claim claims a.username_claim
    ok (token_info a claims username)

  module _ (j : Jose) (url_string : Url → String) (clock : Clock) where
    -- The test of the thumbprint at the end of `Auth.verifyProof`
    same_jkt : String → Result String × JtiCache → Option Error × JtiCache
    same_jkt expected (err e, cache) = (some e, cache)
    same_jkt expected (ok jkt, cache) =
        (if jkt == expected then none else some (failure "dpop jkt mismatch"), cache)

    -- `Auth.verifyProof`; `none` means no error.
    unfoldable pub verify_proof :
        (proof method url access_token expected_jkt : String) → JtiCache → Option Error × JtiCache
    unfolding same_jkt
    verify_proof proof method url access_token expected_jkt cache =
        let checked =
          Verify.verify_proof j proof method url access_token clock.now
            (some (λ jti. seen jti clock.evicted_at clock.recorded_at)) cache in
        if expected_jkt == ""
        then (some (failure "missing cnf.jkt claim"), cache)
        else same_jkt expected_jkt checked

    -- The middle of `VerifyRequest`: whether the token may be used by this request
    unfoldable pub check_binding :
        Request
        → (token_str : String) → (is_dpop : Bool) → TokenInfo
        → JtiCache
        → Option Error × JtiCache
    unfolding verify_proof header_get absolute_request_url
    check_binding r token_str is_dpop info cache =
        let proof = header_get r.header "Dpop" in
        let verified =
          verify_proof proof r.method (absolute_request_url url_string (some r)) token_str
            info.cnf_jkt cache in
        if info.cnf_jkt == ""
        then (none, cache)
        else if not is_dpop
        then (some (failure "token requires DPoP binding"), cache)
        else if proof == ""
        then (some (failure "missing dpop proof"), cache)
        else verified

    -- The result of `VerifyRequest`: a context, which is the given one if there is an error.
    finish : Context → TokenInfo → Option Error × JtiCache → Context × Option Error × JtiCache
    finish ctx info (some e, cache) = (ctx, some e, cache)
    finish ctx info (none, cache) = (apply_user_context ctx info, none, cache)

    with_token :
        Context
        → Request
        → String
        → Bool
        → Result TokenInfo
        → JtiCache
        → Context × Option Error × JtiCache
    unfolding finish check_binding
    with_token ctx r token_str is_dpop (err e) cache = (ctx, some e, cache)
    with_token ctx r token_str is_dpop (ok info) cache =
        finish ctx info (check_binding r token_str is_dpop info cache)

    from_authorization :
        Context → Request → JtiCache → Option (String × Bool) → Context × Option Error × JtiCache
    unfolding with_token
    from_authorization ctx r cache none =
        (ctx, some (failure "missing authorization header"), cache)
    from_authorization ctx r cache (some (t, is_dpop)) =
        with_token ctx r t is_dpop (verify_token t) cache

    -- `VerifyRequest`
    unfoldable pub verify_request : Context → Request → JtiCache → Context × Option Error × JtiCache
    unfolding authorization from_authorization
    verify_request ctx r cache = from_authorization ctx r cache (authorization r)

-- `noauth.Handler.VerifyRequest`: everybody is the anonymous user.
unfoldable pub verify_anonymous : Context → Context × Option Error
unfolding with_user
verify_anonymous ctx = (
  with_user ctx
      (some (record { username = "anonymous"; groups = []; roles = []; attributes = some [] })),
  none,
)
