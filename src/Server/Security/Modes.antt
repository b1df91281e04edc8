-- ===== src/Server/Security/Modes.antt =====
-- Whom the security handlers let pass, by the configuration.
use onyxia_backend.Common.{
  String, ◌≡◌, ◌≢◌, ◌⊎◌, inl, inr, refl, ap, sym, ◌∙◌, Bool, true, false, none, some, [], ◌∷◌,
  Error, Result, ok, err, arith, eq_iff, ◌==◌, Result-cases, Bool-cases,
}
use mathlib.Core.Path.{subst}
use onyxia_backend.UserContext.{Context, User, user}
use onyxia_backend.Dpop.Jti.{JtiCache, new_jti_cache}
use onyxia_backend.Dpop.Request.{Url, Request}
use onyxia_backend.Dpop.Verify.{Jose}
use onyxia_backend.Oidc.Verify.{Clock, authorization, verify_anonymous}
use onyxia_backend.Oidc.Verify.Binding.{verify_request_iff}
use onyxia_backend.Oidc.Verify.Identity.{verify_token_iff}
use onyxia_backend.Oidc.New.{
  OidcConfig, VerifierConfig, Providers, verifier_config, auth_of, new_auth,
}
use onyxia_backend.Server.Security.{
  SecurityHandler, anonymous_handler, oidc_handler, build_security_handler,
}

-- A verifier that does not skip the check of signatures accepts signed tokens only.
pub record ChecksSignatures (ps : Providers) : Type 1 where
  pub is_signed : ps.Provider → String → Bool
  pub checked :
      (p : ps.Provider) (c : VerifierConfig) (t : String) (id : (ps.verifier p c).IdToken)
      → c.insecure_skip_signature_check ≡ false
      → (ps.verifier p c).verify t ≡ ok id
      → is_signed p t ≡ true

abbrev pub anonymous : User
anonymous = record { username = "anonymous"; groups = []; roles = []; attributes = some [] }

err≢ok : {A : Type 0} (e : Error) (x : A) → err e ≢ ok x
err≢ok e x h = ground arith

ok-injective : {A : Type 0} (x y : A) → ok x ≡ ok y → x ≡ y
ok-injective x y h = ap (λ (r : Result _). elim r [ ok v ↦ v | err e ↦ x ]) h

module _ (ps : Providers) (j : Jose) (url_string : Url → String) (clock : Clock) where
  abbrev made : ps.Provider → OidcConfig → SecurityHandler
  made p cfg = oidc_handler ps j url_string clock (record {
    verifier = ps.verifier p (verifier_config ps cfg);
    auth = auth_of ps cfg;
    jti_cache = new_jti_cache;
  })

  built_cases :
      (mode : String) (cfg : OidcConfig) (h : SecurityHandler)
      → build_security_handler ps j url_string clock mode cfg ≡ ok h
      → ((mode ≡ "none") × (anonymous_handler ≡ h))
        ⊎ ((p : ps.Provider) × (mode ≢ "none")
            × (ps.new_provider cfg.issuer_uri ≡ ok p)
            × (made p cfg ≡ h))
  unfolding build_security_handler new_auth
  built_cases mode cfg h b = elim (Bool-cases (mode == "none")) [
    | inl t ↦
        let built : build_security_handler ps j url_string clock mode cfg ≡ ok anonymous_handler =
          rw t refl in
        inl ((eq_iff mode "none").0 t, ok-injective anonymous_handler h (sym built ∙ b))
    | inr t ↦ elim (Result-cases (ps.new_provider cfg.issuer_uri)) [
      | inr (e, f) ↦
          let built : build_security_handler ps j url_string clock mode cfg ≡ err e =
            rw (t, f) refl in
          absurd (err≢ok e h (sym built ∙ b))
      | inl (p, f) ↦
          let built : build_security_handler ps j url_string clock mode cfg ≡ ok (made p cfg) =
            rw (t, f) refl in
          inr
            (p, ground (arith, eq_iff mode "none"), f, ok-injective (made p cfg) h (sym built ∙ b))
    ]
  ]

  -- In the mode `none`, which needs no provider, everybody is the anonymous user.
  pub none-anonymous :
      (cfg : OidcConfig) (h : SecurityHandler)
      → build_security_handler ps j url_string clock "none" cfg ≡ ok h
      → (ctx : Context) (r : Request) (cache : JtiCache)
      → h.handle_oidc ctx r cache ≡ (user (some anonymous) ∷ ctx, none, cache)
  unfolding verify_anonymous
  none-anonymous cfg h b ctx r cache = elim (built_cases "none" cfg h b) [
    | inl (off, same) ↦ ap (λ (x : SecurityHandler). x.handle_oidc ctx r cache) (sym same)
    | inr (p, on, found, same) ↦ absurd (on refl)
  ]

  module _ (laws : ChecksSignatures ps) where
    -- The token of the request is signed by the provider of the configured issuer.
    pub record IsSigned (cfg : OidcConfig) (r : Request) : Type 0 where
      pub provider : ps.Provider
      pub found : ps.new_provider cfg.issuer_uri ≡ ok provider
      pub token : String
      pub by_dpop : Bool
      pub given : authorization r ≡ some (token, by_dpop)
      pub signed : laws.is_signed provider token ≡ true

    -- With authentication, and with `skip_tls_verify` off: whatever request the security handler lets
    -- pass has a token that is signed by the provider of the configured issuer, if the verifier of the
    -- provider checks signatures whenever it is not told to skip that check.
    pub passed-IsSigned :
        (mode : String) (cfg : OidcConfig) (h : SecurityHandler)
        → build_security_handler ps j url_string clock mode cfg ≡ ok h
        → mode ≢ "none"
        → cfg.skip_tls_verify ≡ false
        → (ctx : Context) (r : Request) (cache : JtiCache) → (h.handle_oidc ctx r cache).1 ≡ none
        → IsSigned cfg r
    passed-IsSigned mode cfg h b on checked ctx r cache passed = elim (built_cases mode cfg h b) [
      | inl (off, same) ↦ absurd (on off)
      | inr (p, on', found, same) ↦
          let fine : ((made p cfg).handle_oidc ctx r cache).1 ≡ none =
            subst (λ (x : SecurityHandler). (x.handle_oidc ctx r cache).1 ≡ none) (sym same)
              passed in
          let v = ps.verifier p (verifier_config ps cfg) in
          let (t, d, info, given, verified, bound, after) =
            (verify_request_iff v (auth_of ps cfg) j url_string clock ctx r cache
                ((made p cfg).handle_oidc ctx r cache).0).0
              (refl, fine) in
          let (id, claims, username, accepted, read, aud, name, drawn) =
            (verify_token_iff v (auth_of ps cfg) t info).0 verified in
          record {
            provider = p;
            found = found;
            token = t;
            by_dpop = d;
            given = given;
            signed = laws.checked p (verifier_config ps cfg) t id checked accepted;
          }
    ]
