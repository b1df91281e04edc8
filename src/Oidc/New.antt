-- ===== src/Oidc/New.antt =====
-- `New` of internal/auth/oidc/oidc.go, and the configuration of the authentication
use onyxia_backend.Common.{String, Bool, Result, ok, err}
use onyxia_backend.Dpop.Jti.{JtiCache, new_jti_cache}
use onyxia_backend.Oidc.Verify.{TokenVerifier, Auth}

-- `OIDCConfig`
pub record OidcConfig : Type 0 where
  pub issuer_uri : String
  pub skip_tls_verify : Bool
  pub client_id : String
  pub audience : String
  pub username_claim : String
  pub groups_claim : String
  pub roles_claim : String

-- The fields of `oidc.Config` that are set
pub record VerifierConfig : Type 0 where
  pub client_id : String
  pub insecure_skip_signature_check : Bool

-- `NewProvider` and `Provider.Verifier` of go-oidc
pub record Providers : Type 1 where
  pub Provider : Type 0
  pub new_provider : (issuer : String) → Result Provider
  pub verifier : Provider → VerifierConfig → TokenVerifier

-- `Auth` with its verifier and its cache
pub record Authenticator : Type 1 where
  pub verifier : TokenVerifier
  pub auth : Auth
  pub jti_cache : JtiCache

module _ (ps : Providers) where
  abbrev pub verifier_config : OidcConfig → VerifierConfig
  verifier_config cfg = record {
    client_id = cfg.client_id;
    insecure_skip_signature_check = cfg.skip_tls_verify;
  }

  abbrev pub auth_of : OidcConfig → Auth
  auth_of cfg = record {
    username_claim = cfg.username_claim;
    groups_claim = cfg.groups_claim;
    roles_claim = cfg.roles_claim;
    audience = cfg.audience;
  }

  -- `New`
  unfoldable pub new_auth : OidcConfig → Result Authenticator
  new_auth cfg = elim (ps.new_provider cfg.issuer_uri) [
    | err e ↦ err e
    | ok p ↦ ok (record {
      verifier = ps.verifier p (verifier_config cfg);
      auth = auth_of cfg;
      jti_cache = new_jti_cache;
    })
  ]
