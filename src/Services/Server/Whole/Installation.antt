-- ===== src/Services/Server/Whole/Installation.antt =====
-- When the server starts the installation of a service.
use onyxia_backend.Common.{◌≡◌, ◌⊎◌, ◌↔◌, inl, inr, refl, some, ok, arith}
use onyxia_backend.UserContext.{Context}
use onyxia_backend.Dpop.Jti.{JtiCache}
use onyxia_backend.Oidc.Verify.Binding.{verify_request_iff}
use onyxia_backend.Services.Release.{Job}
use onyxia_backend.Services.System.Installed.{installed-accepted}
use onyxia_backend.Services.Router.{install_service, route}
use onyxia_backend.Services.Router.Exact.{route_iff}
use onyxia_backend.Server.{Incoming, request_of, written, elem_of, respond_if}
use onyxia_backend.Server.Passed.{guarded-passed}
use onyxia_backend.Services.Server.InstallBody.{install_request}
use onyxia_backend.Services.Server.Statuses.{encode_install_service}
use onyxia_backend.Services.Server.Handlers.{install_answer, handle_install_service_request}
use onyxia_backend.Services.Server.Serve.{elem_is_escaped, serve_operation}
use onyxia_backend.Services.Server.Whole.{Parts, State, serve}
use onyxia_backend.Services.Server.Whole.Answered.{answered}
use onyxia_backend.Services.Server.Whole.Outcomes.{
  IsInstallation, by_oidc, StartsNothing, Starts, serve_lem, unrouted, of_operation,
}

module _ (w : Parts) (ctx : Context) (r : Incoming) (cache : JtiCache) (s : State w) where
  -- Every request starts the installation of one service, or none. It starts one only as a PUT to
  -- the path of a release that is called neither "events" nor "schemas", with a verified token whose
  -- user is known, with parameters and a complete body that decode, whose package is resolved and
  -- whose secret is ensured; the installation is then the only new one, and if the operation's
  -- response is encoded, its status is 202. If the request starts none, the installations are as they
  -- were, and the only statuses of an encoded response of an operation are 200 and 404; the answers of
  -- the error handler and of the router are not counted among these.
  pub serve_cases :
      ((job : Job w.installer.Chart) × Starts w ctx r cache s job) ⊎ StartsNothing w ctx r cache s
  serve_cases = elim (unrouted w ctx r cache s (route r.method (elem_of w.lib r)) refl) [
    | inl (op, h) ↦ of_operation w ctx r cache s op h
    | inr nothing ↦ inr nothing
  ]

  installation_is_answered :
      (job : Job w.installer.Chart)
      → IsInstallation w ctx r cache s job
      → w.lib.encode_param "Location" (some "") ≡ ok tt
      → (serve w ctx r cache s).0 ≡ written 202
  unfolding serve_operation handle_install_service_request install_answer respond_if
      encode_install_service
  installation_is_answered job req located =
      let h =
        (route_iff r.method (elem_of w.lib r) (install_service req.release_id)).1
          (req.by_put, req.at_release, req.one_segment, req.reached) in
      let here = serve_lem w ctx r cache s (install_service req.release_id) h in
      let (context, passed) =
        (verify_request_iff w.verifier w.auth w.jose w.url_string w.clock ctx (request_of r) cache
            req.sctx).1
          req.authenticated in
      let next =
        guarded-passed w.lib (λ ctx r c. by_oidc w ctx r c)
          (answered w (elem_is_escaped w.lib r) req.release_id r) ctx r cache s req.sctx passed
          context in
      let fine =
        installed-accepted w.repo w.client w.installer w.unmarshal req.sctx
          (install_request req.body) req.params s.system job req.installed in
      ground (arith, req.given, req.decoded)

  -- If the empty location can be encoded, a request is answered with the response of status
  -- 202 exactly if it
  -- installs a service: it is a PUT to the path of a release that is called neither "events" nor
  -- "schemas", it has a verified token whose user is known, its parameters and its body decode, the body is complete, its package is resolved, its
  -- secret is ensured, and its installation begins.
  pub accepted_iff :
      w.lib.encode_param "Location" (some "") ≡ ok tt
      → ((serve w ctx r cache s).0 ≡ written 202)
        ↔ ((job : Job w.installer.Chart) × IsInstallation w ctx r cache s job)
  accepted_iff located = (
    λ h. elim serve_cases [
      | inl (job, starts) ↦ (job, starts.request)
      | inr nothing ↦ elim (nothing.status 202 h) [ inl e ↦ ground arith | inr e ↦ ground arith ]
    ],
    λ (job, req). installation_is_answered job req located,
  )
