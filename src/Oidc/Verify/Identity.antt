-- ===== src/Oidc/Verify/Identity.antt =====
-- Whom an accepted token stands for, and what an error leaves behind.
use onyxia_backend.Common.{
  String, ◌≡◌, refl, Bool, Option, none, some, lookup, ◌==◌, Error, ok, ◌>>=◌, ◌>>◌, >>=-eq-ok,
  arith, ap, ◌∙◌, if◌then◌else◌, ◌||◌, ◌↔◌,
}
use onyxia_backend.Common.Any.{str}
use onyxia_backend.UserContext.{Context, User, get_user}
use onyxia_backend.Dpop.Jti.{JtiCache}
use onyxia_backend.Dpop.Request.{Url, Request}
use onyxia_backend.Dpop.Verify.{Jose, failure}
use onyxia_backend.Oidc.Claims.{Claims, validate_audience, extract_claim, without_claims}
use onyxia_backend.Oidc.Claims.Audience.{
  IsForAudience, validate_audience_iff, extract_claim_iff, lookup-without_claims,
}
use onyxia_backend.Oidc.Verify.Binding.{verify_request_iff}
use onyxia_backend.Oidc.Verify.{
  from_authorization, TokenVerifier, Auth, TokenInfo, Clock, apply_user_context, token_info,
  verify_token, verify_request, authorization, finish, with_token,
}

abbrev user_of : TokenInfo → User
user_of info = record {
  username = info.username;
  groups = info.groups;
  roles = info.roles;
  attributes = some info.attrs;
}

get_user-apply_user_context :
    (ctx : Context) (info : TokenInfo)
    → get_user (apply_user_context ctx info) ≡ some (user_of info)
unfolding apply_user_context get_user
get_user-apply_user_context ctx info = refl

module _ (v : TokenVerifier) (a : Auth) where
  drawn_from :
      (claims : Claims) (info : TokenInfo)
      → (do
        validate_audience a.audience claims
        username ← extract_claim claims a.username_claim
        ok (token_info a claims username))
        ≡ ok info
      → (username : String) × IsForAudience a.audience claims
        × (lookup a.username_claim claims ≡ some (str username))
        × (info ≡ token_info a claims username)
  drawn_from claims info h =
      let (u, p, h1) = >>=-eq-ok (validate_audience a.audience claims) _ h in
      let (username, q, e) = >>=-eq-ok (extract_claim claims a.username_claim) _ h1 in
      (
        username,
        (validate_audience_iff a.audience claims).0 p,
        (extract_claim_iff claims a.username_claim username).0 q,
        ground arith,
      )

  -- The verifier accepts the token, its claims are for the audience, and `info` is drawn from them.
  abbrev pub IsTokenOf : String → TokenInfo → Type 0
  IsTokenOf t info =
      (token : v.IdToken) × (claims : Claims) × (username : String) × (v.verify t ≡ ok token)
      × (v.claims token ≡ ok claims)
      × IsForAudience a.audience claims
      × (lookup a.username_claim claims ≡ some (str username))
      × (info ≡ token_info a claims username)

  -- The user of `ctx` is the one whom the claims of the request's verified token name; the attributes
  -- are all the claims but those that name, group and rank the user.
  abbrev pub HasUserOf : Request → Context → Type 0
  HasUserOf r ctx =
      (t : String) × (is_dpop : Bool) × (token : v.IdToken) × (claims : Claims) × (user : User)
      × (attrs : Claims) × (authorization r ≡ some (t, is_dpop))
      × (v.verify t ≡ ok token)
      × (v.claims token ≡ ok claims)
      × IsForAudience a.audience claims
      × (get_user ctx ≡ some user)
      × (lookup a.username_claim claims ≡ some (str user.username))
      × (user.attributes ≡ some attrs)
      × ((k : String)
          → lookup k attrs ≡ (
              if k == a.username_claim || k == a.groups_claim || k == a.roles_claim
              then none
              else lookup k claims))

  -- A token verifies exactly when its verifier accepts it, its claims decode and are for the
  -- configured audience, and the claim of the user's name is a text; the information is then drawn
  -- from those claims.
  pub verify_token_iff :
      (t : String) (info : TokenInfo) → (verify_token v a t ≡ ok info) ↔ IsTokenOf t info
  unfolding verify_token
  verify_token_iff t info = (
    λ h.
        let (token, p, h1) = >>=-eq-ok (v.verify t) _ h in
        let (claims, q, h2) = >>=-eq-ok (v.claims token) _ h1 in
        let (username, aud, name, e) = drawn_from claims info h2 in
        (token, claims, username, p, q, aud, name, e),
    λ (token, claims, username, p, q, aud, name, e). ground (
      arith,
      (validate_audience_iff a.audience claims).1 aud,
      (extract_claim_iff claims a.username_claim username).1 name,
    ),
  )

  module _ (j : Jose) (url_string : Url → String) (clock : Clock) where
    refused_lem :
        (ctx : Context) (r : Request) (cache : JtiCache) (o : Option (String × Bool)) {e : Error}
        → (from_authorization v a j url_string clock ctx r cache o).1 ≡ some e
        → (from_authorization v a j url_string clock ctx r cache o).0 ≡ ctx
    unfolding from_authorization with_token finish
    refused_lem ctx r cache o h = ground arith

    module _ (ctx : Context) (r : Request) (cache : JtiCache) where
      -- An accepted request has the user whom the claims of its verified token name: the name is the
      -- text of the configured claim, and the attributes are all the other claims but those that
      -- name, group and rank the user.
      pub accepted_user :
          (verify_request v a j url_string clock ctx r cache).1 ≡ none
          → HasUserOf r (verify_request v a j url_string clock ctx r cache).0
      unfolding token_info
      accepted_user h =
          let (t, d, info, auth, verified, bound, same) =
            (verify_request_iff v a j url_string clock ctx r cache
                (verify_request v a j url_string clock ctx r cache).0).0
              (refl, h) in
          let (token, claims, username, p, q, aud, name, e) =
            (verify_token_iff t info).0 verified in
          (
            t,
            d,
            token,
            claims,
            user_of (token_info a claims username),
            without_claims a.username_claim a.groups_claim a.roles_claim claims,
            auth,
            p,
            q,
            aud,
            ap get_user same
                ∙ get_user-apply_user_context ctx info
                ∙ ap {B = Option User} (λ i. some (user_of i)) e,
            name,
            refl,
            λ k. lookup-without_claims a.username_claim a.groups_claim a.roles_claim k claims,
          )

      -- A request that is refused goes on with the context that it had.
      pub refused_context :
          (e : Error)
          → (verify_request v a j url_string clock ctx r cache).1 ≡ some e
          → (verify_request v a j url_string clock ctx r cache).0 ≡ ctx
      unfolding verify_request
      refused_context e h = refused_lem ctx r cache (authorization r) h

      -- A request without an authorization is refused.
      pub unauthorized :
          authorization r ≡ none
          → verify_request v a j url_string clock ctx r cache
            ≡ (ctx, some (failure "missing authorization header"), cache)
      unfolding verify_request from_authorization
      unauthorized h = rw h refl
