-- ===== src/Tests/Oidc.antt =====
-- Requests, tokens and claims at concrete inputs.
use onyxia_backend.Common.{◌≡◌, ◌↔◌, refl, false, none, some, [], ◌∷◌, ok}
use onyxia_backend.Common.Any.{str, obj, field, end}
use onyxia_backend.Common.Text.{equal_fold, cut}
use onyxia_backend.UserContext.{Context, cnf_jkt}
use onyxia_backend.Dpop.Jti.{new_jti_cache, seen}
use onyxia_backend.Dpop.Request.{Request, Url, absolute_request_url}
use onyxia_backend.Dpop.Verify
use onyxia_backend.Dpop.Verify.{verified_claims, bound_key, failure}
use onyxia_backend.Http.{proxy_headers, IsExternal, proxied_request_url}
use onyxia_backend.Oidc.Claims.{validate_audience, extract_claim}
use onyxia_backend.Oidc.Verify.{
  TokenInfo, apply_user_context, token_info, verify_token, check_binding, verify_request,
}
use onyxia_backend.Oidc.Verify.Binding.{IsAuthenticated, verify_request_iff}
use onyxia_backend.Oidc.Verify.Identity.{HasUserOf, accepted_user}
use onyxia_backend.Tests.Fixtures.{
  jose, url_string, verifier, auth, request, bearer_request, clock, site,
}

abbrev alice : TokenInfo
alice = record {
  username = "alice";
  groups = "g" ∷ [];
  roles = [];
  attrs =
      ("aud", str "onyxia") ∷ ("mail", str "a@b") ∷ ("cnf", obj (field "jkt" (str "k") end)) ∷ [];
  cnf_jkt = "k";
}

token_of_alice : verify_token verifier auth "t" ≡ ok alice
unfolding verify_token validate_audience extract_claim token_info
token_of_alice = refl

proof_accepted :
    (verify_request verifier auth jose url_string clock [] request new_jti_cache).1 ≡ none
unfolding verify_request verify_token validate_audience extract_claim token_info check_binding
    Verify.verify_proof verified_claims bound_key seen equal_fold cut
proof_accepted = refl

bearer_refused :
    (verify_request verifier auth jose url_string clock
      (cnf_jkt "old" ∷ [])
      bearer_request
      new_jti_cache).1
    ≡ some (failure "token requires DPoP binding")
unfolding verify_request verify_token validate_audience extract_claim token_info check_binding
    equal_fold cut
bearer_refused = refl

abbrev accepted_context : Context
accepted_context = apply_user_context [] alice

verify_request_iff_example :
    ((verify_request verifier auth jose url_string clock [] request new_jti_cache).0
        ≡ accepted_context)
      × ((verify_request verifier auth jose url_string clock [] request new_jti_cache).1 ≡ none)
    ↔ IsAuthenticated verifier auth jose url_string clock [] request new_jti_cache accepted_context
verify_request_iff_example =
    verify_request_iff verifier auth jose url_string clock [] request new_jti_cache accepted_context

accepted_user_example :
    HasUserOf verifier auth request
      (verify_request verifier auth jose url_string clock [] request new_jti_cache).0
accepted_user_example =
    accepted_user verifier auth jose url_string clock [] request new_jti_cache proof_accepted

abbrev forwarded : Request
forwarded = record request { header = ("X-Forwarded-Proto", "https" ∷ []) ∷ []; tls = false }

proxied_request_url_example :
    (r' : Request) × (external : Url) × (proxy_headers forwarded ≡ some r')
    × IsExternal forwarded site external
    × (absolute_request_url url_string (some r') ≡ url_string external)
    × (r'.header ≡ forwarded.header)
    × (r'.method ≡ forwarded.method)
    × (proxy_headers r' ≡ some r')
proxied_request_url_example = proxied_request_url url_string forwarded site refl
