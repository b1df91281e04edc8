-- ===== src/Onboarding/Server/Whole.antt =====
-- The onboarding server as it is put together (onboarding/api/route): the generated server over the
-- verification of requests, the controller, the use case and the Kubernetes adapter.
use mathlib.Core.Path.{subst}
use onyxia_backend.Common.{
  ℕ, String, ◌≡◌, ◌⊎◌, inl, inr, sym, true, Option, none, Error, Result, ok, arith,
}
use onyxia_backend.UserContext.{Context, User}
use onyxia_backend.Dpop.Jti.{JtiCache}
use onyxia_backend.Dpop.Request.{Url, Request}
use onyxia_backend.Dpop.Verify.{Jose}
use onyxia_backend.Oidc.Verify.{TokenVerifier, Auth, Clock, verify_request}
use onyxia_backend.Oidc.Verify.Binding.{IsAuthenticated, verify_request_iff}
use onyxia_backend.Oidc.Verify.Identity.{HasUserOf, accepted_user}
use onyxia_backend.Onboarding.Domain.{
  OnboardingRequest, QuotaApplicationResult, quota_unchanged, quota_ignored,
}
use onyxia_backend.Onboarding.Adapter.{Cluster, apply_resource_quotas}
use onyxia_backend.Onboarding.Adapter.Calls.{ReadsBack}
use onyxia_backend.Onboarding.Usecase.{
  OnboardingUsecase, Surroundings, kubernetes_namespace_service, get_namespace, get_quota, onboard,
}
use onyxia_backend.Onboarding.Usecase.Steps.{onboard_in_place}
use onyxia_backend.Onboarding.Controller
use onyxia_backend.Onboarding.Controller.{
  OnboardRes, onboard_ok, IsAllowed, request_of, onboard-answered, onboard-unchanged,
  onboard-allowed,
}
use onyxia_backend.Server.{Incoming, Reply, written, HttpLib, respond}
use onyxia_backend.Server
use onyxia_backend.Server.Body.{Jx}
use onyxia_backend.Onboarding.Server.{decode_onboard_request, serve_http, encode_onboard_response}
use onyxia_backend.Onboarding.Server.Served.{
  IsRouted, IsPassedOn, served_cases, served-written, passed-served,
}

module _ (lib : HttpLib) (jx : Jx) (v : TokenVerifier) (a : Auth) (j : Jose)
    (url_string : Url → String) (clock : Clock) (cluster : Cluster) (w : Surroundings) where
  abbrev pub Use : Type 0
  Use = OnboardingUsecase × cluster.State

  -- The use case over the cluster, as the controller calls it
  abbrev pub usecase : Context → OnboardingRequest → Use → Result (Unit {0}) × Use
  usecase ctx req s =
      let done = onboard (kubernetes_namespace_service cluster) w ctx req s.0 s.1 in
      (done.0, (done.1, done.2))

  abbrev pub handle_oidc : Context → Request → JtiCache → Context × Option Error × JtiCache
  handle_oidc ctx r cache = verify_request v a j url_string clock ctx r cache

  abbrev pub controller : Context → Option String → Use → (OnboardRes × Option Error) × Use
  controller ctx group s = Controller.onboard usecase ctx group s

  -- The whole server, without a path prefix
  abbrev pub serve : Context → Incoming → JtiCache → Use → Reply × JtiCache × Use
  serve ctx r cache s = serve_http lib jx handle_oidc controller "" ctx r cache s

  -- Who stands behind a request: its verified token, and the user of that token, who may ask for the
  -- group that the body of the request names
  pub record IsAuthorized (ctx : Context) (r : Incoming) (cache : JtiCache) (sctx : Context)
      (group : Option String) (u : User) : Type 0 where
    pub routed : IsRouted lib jx handle_oidc controller r
    pub authenticated : IsAuthenticated v a j url_string clock ctx (Server.request_of r) cache sctx
    pub named : HasUserOf v a (Server.request_of r) sctx
    pub decoded : decode_onboard_request jx lib r ≡ inl group
    pub allowed : IsAllowed usecase sctx group u

  module _ (ctx : Context) (r : Incoming) (cache : JtiCache) (s : Use) where
    authorized_lem :
        (sctx : Context) (group : Option String) (u : User)
        → IsRouted lib jx handle_oidc controller r
        → IsPassedOn lib jx handle_oidc controller ctx r cache sctx group
        → IsAllowed usecase sctx group u
        → IsAuthorized ctx r cache sctx group u
    authorized_lem sctx group u routed p allowed = record {
      routed = routed;
      authenticated =
          (verify_request_iff v a j url_string clock ctx (Server.request_of r) cache sctx).0
            (p.context, p.passed);
      named =
          subst (λ (x : Context). HasUserOf v a (Server.request_of r) x) p.context
            (accepted_user v a j url_string clock ctx (Server.request_of r) cache p.passed);
      decoded = p.decoded;
      allowed = allowed;
    }

    -- Whatever a request is, the server leaves the use case and the cluster as they are, unless the
    -- request is a POST to the route of the operation with a verified token that it may use, whose
    -- body names a group, or none, that the user of the token may ask for.
    pub unauthorized_changes_nothing :
        ((serve ctx r cache s).2 ≡ s)
        ⊎ ((sctx : Context) × (group : Option String) × (u : User) × IsAuthorized ctx r cache sctx
              group u)
    unauthorized_changes_nothing = elim (served_cases lib jx handle_oidc controller ctx r cache s) [
      | inl (never, q) ↦ inl q
      | inr (routed, sctx, group, p, reply, state) ↦ elim (onboard-unchanged usecase sctx group s) [
        | inl same ↦ inl (ground arith)
        | inr (u, allowed) ↦ inr (sctx, group, u, authorized_lem sctx group u routed p allowed)
      ]
    ]

  -- Applying the quota of the request of `u` once more to its namespace would write nothing to the
  -- cluster `k`.
  abbrev pub IsInPlace : OnboardingUsecase → User → Option String → cluster.State → Type 0
  IsInPlace s u group k =
      (q : QuotaApplicationResult) × (apply_resource_quotas cluster
          (get_namespace s (request_of usecase u group))
          (get_quota s.quotas (request_of usecase u group)) k
        ≡ (ok q, k))
      × ((q ≡ quota_unchanged) ⊎ (q ≡ quota_ignored))

  module _ (laws : ReadsBack cluster) (ctx : Context) (r : Incoming) (cache : JtiCache)
      (s : Use) where
    done-IsInPlace :
        (sctx : Context) (group : Option String) (u : User)
        → s.0.quotas.enabled ≡ true
        → (usecase sctx (request_of usecase u group) s).0 ≡ ok tt
        → (k : cluster.State) → k ≡ (usecase sctx (request_of usecase u group) s).1.1
        → IsInPlace s.0 u group k
    done-IsInPlace sctx group u enabled done k same =
        subst (λ (x : cluster.State). IsInPlace s.0 u group x) (sym same)
          (onboard_in_place cluster laws w sctx (request_of usecase u group) s.0 s.1 enabled done)

    -- A response of the operation is encoded only with the status 200, and only for a POST to the
    -- route of the operation with a verified token that it may use, whose body names a group, or none,
    -- that the user of the token may ask for; if quotas are enabled, the quota of that user or group
    -- is then in place on a cluster that reads back what was written. The answers of the error handler
    -- and of the router are not responses of the operation.
    pub written-IsInPlace :
        (status : ℕ)
        → (serve ctx r cache s).0 ≡ written status
        → (status ≡ 200)
          × (sctx : Context) × (group : Option String) × (u : User) × IsAuthorized ctx r cache sctx
              group u
          × (s.0.quotas.enabled ≡ true → IsInPlace s.0 u group (serve ctx r cache s).2.1)
    unfolding encode_onboard_response
    written-IsInPlace status h =
        let (routed, sctx, group, p, fine, code, state) =
          served-written lib jx handle_oidc controller ctx r cache s status h in
        let (u, allowed, answer, done) = onboard-answered usecase sctx group s fine in
        (
          ground arith,
          sctx,
          group,
          u,
          authorized_lem ctx r cache s sctx group u routed p allowed,
          λ enabled.
              done-IsInPlace sctx group u enabled done (serve ctx r cache s).2.1 (ground arith),
        )

  -- A request whose user is authorized to ask for the group that its body names is answered with the status 200 if the use case succeeds for that user and group.
  pub authorized_is_answered :
      (ctx : Context) (r : Incoming) (cache : JtiCache) (s : Use) (sctx : Context)
      (group : Option String) (u : User)
      → IsAuthorized ctx r cache sctx group u
      → (usecase sctx (request_of usecase u group) s).0 ≡ ok tt
      → (serve ctx r cache s).0 ≡ written 200
  unfolding respond encode_onboard_response
  authorized_is_answered ctx r cache s sctx group u auth done =
      let (same, fine) =
        (verify_request_iff v a j url_string clock ctx (Server.request_of r) cache sctx).1
          auth.authenticated in
      let answer : (controller sctx group s).0 ≡ (onboard_ok, none) =
        onboard-allowed usecase sctx group s u auth.allowed done in
      let reply =
        passed-served lib jx handle_oidc controller ctx r cache s sctx group auth.routed
          (record { passed = fine; context = same; decoded = auth.decoded }) in
      ground (arith, reply, answer)
