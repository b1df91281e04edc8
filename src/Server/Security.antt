-- ===== src/Server/Security.antt =====
-- The security handlers of the two servers: onboarding/api/middleware/security.go, and the same in
-- services/api/middleware/security.go
pub mod Modes
use onyxia_backend.Common.{String, ◌==◌, Option, Error, Result, ok, err, if◌then◌else◌}
use onyxia_backend.UserContext.{Context}
use onyxia_backend.Dpop.Jti.{JtiCache, new_jti_cache}
use onyxia_backend.Dpop.Request.{Url, Request}
use onyxia_backend.Dpop.Verify.{Jose}
use onyxia_backend.Oidc.Verify.{Clock, verify_request, verify_anonymous}
use onyxia_backend.Oidc.New.{OidcConfig, Providers, Authenticator, new_auth}

-- `HandleOidc`, with the cache that it starts from
pub record SecurityHandler : Type 0 where
  pub handle_oidc : Context → Request → JtiCache → Context × Option Error × JtiCache
  pub jti_cache : JtiCache

abbrev pub anonymous_handler : SecurityHandler
anonymous_handler = record {
  handle_oidc = λ ctx r cache. let (actx, e) = verify_anonymous ctx in (actx, e, cache);
  jti_cache = new_jti_cache;
}

module _ (ps : Providers) (j : Jose) (url_string : Url → String) (clock : Clock) where
  abbrev pub oidc_handler : Authenticator → SecurityHandler
  oidc_handler a = record {
    handle_oidc = λ ctx r cache. verify_request a.verifier a.auth j url_string clock ctx r cache;
    jti_cache = a.jti_cache;
  }

  -- `BuildSecurityHandler`
  unfoldable pub build_security_handler :
      (authentication_mode : String) → OidcConfig → Result SecurityHandler
  unfolding new_auth verify_anonymous
  build_security_handler authentication_mode cfg =
      let made = new_auth ps cfg in
      if authentication_mode == "none"
      then ok anonymous_handler
      else elim made [ ok a ↦ ok (oidc_handler a) | err e ↦ err e ]
