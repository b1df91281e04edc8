-- ===== src/Onboarding/Server/Anonymous.antt =====
-- The onboarding server without authentication.
use mathlib.Core.Path.{subst}
use onyxia_backend.Common.{
  String, ◌≡◌, ◌↔◌, inl, inr, refl, ap, sym, ◌∙◌, Option, none, some, ◌∷◌, Result, ok, arith,
  Option-cases, Error,
}
use onyxia_backend.UserContext.{Context, User, get_user, user}
use onyxia_backend.Dpop.Jti.{JtiCache}
use onyxia_backend.Dpop.Request.{Url}
use onyxia_backend.Dpop.Verify.{Jose}
use onyxia_backend.Oidc.Verify.{Clock}
use onyxia_backend.Oidc.New.{OidcConfig, Providers}
use onyxia_backend.Onboarding.Domain.{OnboardingRequest}
use onyxia_backend.Onboarding.Controller
use onyxia_backend.Onboarding.Controller.{
  OnboardRes, onboard_ok, IsAllowed, request_of, onboard-answered, onboard-allowed,
}
use onyxia_backend.Server.{Incoming, written, HttpLib, respond}
use onyxia_backend.Server
use onyxia_backend.Server.Body.{Jx}
use onyxia_backend.Server.Security.{SecurityHandler, build_security_handler}
use onyxia_backend.Server.Security.Modes.{anonymous, none-anonymous}
use onyxia_backend.Onboarding.Server.{decode_onboard_request, serve_http, encode_onboard_response}
use onyxia_backend.Onboarding.Server.Served.{IsRouted, served-written, passed-served}

module _ (ps : Providers) (j : Jose) (url_string : Url → String) (clock : Clock) (lib : HttpLib)
    (jx : Jx) {S : Type 0} (usecase : Context → OnboardingRequest → S → Result (Unit {0}) × S) where
  abbrev pub as_anonymous : Context → Context
  as_anonymous ctx = user (some anonymous) ∷ ctx

  abbrev pub controller : Context → Option String → S → (OnboardRes × Option Error) × S
  controller ctx group s = Controller.onboard usecase ctx group s

  no_groups :
      (ctx : Context) (group : Option String) (u : User)
      → IsAllowed usecase (as_anonymous ctx) group u
      → (group ≡ none) × (u ≡ anonymous)
  unfolding get_user
  no_groups ctx group u a = elim (Option-cases group) [
    | inl e ↦ (e, ground (arith, a.known))
    | inr (g, e) ↦ ground (arith, a.known, a.member g e)
  ]

  anonymous-IsAllowed : {ctx : Context} → IsAllowed usecase (as_anonymous ctx) none anonymous
  unfolding get_user
  anonymous-IsAllowed = record { known = refl; member = λ g e. ground arith }

  -- In the mode `none`, a request is answered with the status 200 exactly if it is a POST to the
  -- route of the operation, its body decodes and names no group, and the use case succeeds for the
  -- anonymous user: without authentication nobody can be onboarded into a group.
  pub anonymous_iff :
      (cfg : OidcConfig) (h : SecurityHandler)
      → build_security_handler ps j url_string clock "none" cfg ≡ ok h
      → (ctx : Context) (r : Incoming) (cache : JtiCache) (s : S)
      → ((serve_http lib jx h.handle_oidc controller "" ctx r cache s).0 ≡ written 200) ↔ (
          IsRouted lib jx h.handle_oidc controller r
          × (decode_onboard_request jx lib r ≡ inl none)
          × ((usecase (as_anonymous ctx) (request_of usecase anonymous none) s).0 ≡ ok tt))
  unfolding respond encode_onboard_response
  anonymous_iff cfg h b ctx r cache s =
      let passed = none-anonymous ps j url_string clock cfg h b ctx (Server.request_of r) cache in
      (
        λ w.
            let (routed, sctx, group, p, fine, code, state) =
              served-written lib jx h.handle_oidc controller ctx r cache s 200 w in
            let context : as_anonymous ctx ≡ sctx =
              sym (ap (λ (x : Context × Option Error × JtiCache). x.0) passed) ∙ p.context in
            let (u, allowed, answer, done) = onboard-answered usecase sctx group s fine in
            let (no_group, who) =
              no_groups ctx group u
                (subst (λ (x : Context). IsAllowed usecase x group u) (sym context) allowed) in
            (routed, p.decoded ∙ ap inl no_group, ground (arith, done)),
        λ (routed, decoded, done).
            let reply =
              passed-served lib jx h.handle_oidc controller ctx r cache s (as_anonymous ctx) none
                routed
                (record {
                  passed = ap (λ (x : Context × Option Error × JtiCache). x.1) passed;
                  context = ap (λ (x : Context × Option Error × JtiCache). x.0) passed;
                  decoded = decoded;
                }) in
            let answer : (controller (as_anonymous ctx) none s).0 ≡ (onboard_ok, none) =
              onboard-allowed usecase (as_anonymous ctx) none s anonymous anonymous-IsAllowed
                done in
            ground (arith, reply, answer),
      )
