-- ===== src/Tests/Security.antt =====
-- The security handlers of a server, with authentication and without it.
use onyxia_backend.Common.{
  String, ◌≡◌, ◌↔◌, ◌==◌, eq_iff, refl, Bool, true, false, none, [], errorf, Result, ok, err, arith,
  if◌then◌else◌, ℕ, inl,
}
use onyxia_backend.Common.Text.{equal_fold, cut}
use onyxia_backend.Dpop.Jti.{new_jti_cache, seen}
use onyxia_backend.Dpop.Verify
use onyxia_backend.Dpop.Verify.{verified_claims, bound_key}
use onyxia_backend.Oidc.Claims.{validate_audience, extract_claim}
use onyxia_backend.Oidc.Verify.{
  apply_user_context, token_info, verify_token, check_binding, verify_request,
}
use onyxia_backend.Oidc.New.{OidcConfig, Providers}
use onyxia_backend.Onboarding.Controller.{request_of}
use onyxia_backend.Onboarding.Domain.{OnboardingRequest}
use onyxia_backend.UserContext.{Context}
use onyxia_backend.Server
use onyxia_backend.Server.{written}
use onyxia_backend.Server.Security.{SecurityHandler, anonymous_handler, build_security_handler}
use onyxia_backend.Server.Security.Modes.{ChecksSignatures, anonymous, IsSigned, passed-IsSigned}
use onyxia_backend.Onboarding.Server.{serve_http, decode_onboard_request}
use onyxia_backend.Onboarding.Server.Served.{IsRouted}
use onyxia_backend.Onboarding.Server.Anonymous.{controller, as_anonymous, anonymous_iff}
use onyxia_backend.Tests.Fixtures.{url_string, claims, clock}
use onyxia_backend.Tests.Server.{lib, jx, post, post_jose}

-- The provider has signed the token "t" and no other.
abbrev verified : Bool → String → Result String
verified true t = ok t
verified false t = if t == "t" then ok t else err (errorf "bad signature" [])

abbrev providers : Providers
providers = record {
  Provider = Unit {0};
  new_provider = λ issuer. ok tt;
  verifier = λ p c. record {
    IdToken = String;
    verify = λ t. verified c.insecure_skip_signature_check t;
    claims = λ t. ok claims;
  };
}

checked : (skip : Bool) (t id : String) → skip ≡ false → verified skip t ≡ ok id → (t == "t") ≡ true
checked true t id off h = ground arith
checked false t id off h = ground arith

providers-ChecksSignatures : ChecksSignatures providers
providers-ChecksSignatures = record {
  is_signed = λ p t. t == "t";
  checked = λ p c t id off h. checked c.insecure_skip_signature_check t id off h;
}

abbrev config : OidcConfig
config = record {
  issuer_uri = "https://issuer";
  skip_tls_verify = false;
  client_id = "onyxia";
  audience = "onyxia";
  username_claim = "sub";
  groups_claim = "groups";
  roles_claim = "roles";
}

abbrev by_oidc : SecurityHandler
by_oidc = record {
  handle_oidc = λ ctx r cache.
      verify_request
        (providers.verifier tt
          (record { client_id = "onyxia"; insecure_skip_signature_check = false }))
        (record {
          username_claim = "sub";
          groups_claim = "groups";
          roles_claim = "roles";
          audience = "onyxia";
        })
        post_jose url_string clock ctx r cache;
  jti_cache = new_jti_cache;
}

built : build_security_handler providers post_jose url_string clock "oidc" config ≡ ok by_oidc
unfolding build_security_handler
built = refl

passed : (by_oidc.handle_oidc [] (Server.request_of post) new_jti_cache).1 ≡ none
unfolding verify_request verify_token validate_audience extract_claim token_info check_binding
    Verify.verify_proof verified_claims bound_key seen equal_fold cut apply_user_context
passed = refl

passed-IsSigned_example :
    IsSigned providers post_jose url_string clock providers-ChecksSignatures config
      (Server.request_of post)
passed-IsSigned_example =
    passed-IsSigned providers post_jose url_string clock providers-ChecksSignatures "oidc" config
      by_oidc built (λ e. ground (arith, (eq_iff "oidc" "none").1 e)) refl []
      (Server.request_of post) new_jti_cache passed

abbrev counted : Context → OnboardingRequest → ℕ → Result (Unit {0}) × ℕ
counted ctx req n = (ok tt, 1)

unauthenticated :
    build_security_handler providers post_jose url_string clock "none" config ≡ ok anonymous_handler
unfolding build_security_handler
unauthenticated = refl

anonymous_iff_example :
    ((serve_http lib jx anonymous_handler.handle_oidc
        (controller providers post_jose url_string clock lib jx counted)
        ""
        []
        post
        new_jti_cache
        0).0
      ≡ written 200)
    ↔ (IsRouted lib jx anonymous_handler.handle_oidc
          (controller providers post_jose url_string clock lib jx counted)
          post
        × (decode_onboard_request jx lib post ≡ inl none)
        × ((counted
              (as_anonymous providers post_jose url_string clock lib jx counted [])
              (request_of counted anonymous none)
              0).0
            ≡ ok tt))
anonymous_iff_example =
    anonymous_iff providers post_jose url_string clock lib jx counted config anonymous_handler
      unauthenticated [] post new_jti_cache 0
