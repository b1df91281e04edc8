-- ===== src/Services/Server/Whole/Outcomes.antt =====
-- What becomes of a request: the installation that it starts, or that it starts none.
use onyxia_backend.Common.{
  ℕ, String, ◌≡◌, ◌⊎◌, inl, inr, ap, sym, ◌∙◌, true, false, Option, none, some, [], ◌∷◌, Error,
  arith,
}
use onyxia_backend.UserContext.{Context}
use onyxia_backend.Dpop.Jti.{JtiCache}
use onyxia_backend.Oidc.Verify.Binding.{IsAuthenticated, verify_request_iff}
use onyxia_backend.Dpop.Request.{Request}
use onyxia_backend.Services.System
use onyxia_backend.Services.Release.{Job}
use onyxia_backend.Services.Install.{InstallParams}
use onyxia_backend.Services.System.Installed.{IsInstalled}
use onyxia_backend.Services.Router
use onyxia_backend.Services.Router.{
  Operation, get_my_catalogs, get_my_package, watch_release, watch_resources, get_package_schema,
  install_service, Route, handle, route,
}
use onyxia_backend.Services.Router.Paths.{path_of, HasSegments, IsReached}
use onyxia_backend.Services.Router.Exact.{route_iff}
use onyxia_backend.Server.{Incoming, request_of, Reply, written, elem_of, cut_prefix}
use onyxia_backend.Server.Passed.{secured_lem, guarded_cases}
use onyxia_backend.Services.Server.{handle_get_my_catalogs_request, handle_get_my_package_request}
use onyxia_backend.Services.Server.InstallBody.{
  ServiceInstallRequest, decode_install_service_request, install_request,
}
use onyxia_backend.Services.Server.Params.{decode_install_service_params}
use onyxia_backend.Services.Server.Handlers.{
  handle_get_package_schema_request, handle_install_service_request, handle_watch_release_request,
  handle_watch_resources_request,
}
use onyxia_backend.Services.Server.Serve.{elem_is_escaped, serve_operation, serve_route, serve_http}
use onyxia_backend.Services.Server.Whole.{Parts, State, handle_oidc, handler, serve}
use onyxia_backend.Services.Server.Whole.Answered.{answered, answered_cases}
use onyxia_backend.Services.Server.Whole.Written.{
  OnlyReads, catalogs-OnlyReads, package-OnlyReads, schema-OnlyReads, watch_release-OnlyReads,
  watch_resources-OnlyReads, guarded-OnlyReads,
}

module _ (w : Parts) where
  -- The request `r` installs a service: it is a PUT to the path of a release
  -- that is called neither "events" nor "schemas", it has a verified token
  -- whose user is known, its parameters and its body decode, the body is complete, and `job` is the
  -- installation of the resolved package, for which the secret was ensured.
  pub record IsInstallation (ctx : Context) (r : Incoming) (cache : JtiCache) (s : State w)
      (job : Job w.installer.Chart) : Type 0 where
    pub release_id : String
    pub by_put : r.method ≡ "PUT"
    pub at_release : elem_of w.lib r ≡ path_of (install_service release_id)
    pub one_segment : HasSegments (install_service release_id)
    pub reached : IsReached (install_service release_id)
    pub sctx : Context
    pub authenticated :
        IsAuthenticated w.verifier w.auth w.jose w.url_string w.clock ctx (request_of r) cache sctx
    pub params : InstallParams
    pub given :
        decode_install_service_params w.lib (elem_is_escaped w.lib r) release_id r.header
        ≡ inl params
    pub body : ServiceInstallRequest
    pub decoded : decode_install_service_request w.jx w.lib r ≡ inl body
    pub installed :
        IsInstalled w.repo w.client w.installer w.unmarshal sctx
          (install_request body)
          params
          s.system
          job

  abbrev pub by_oidc : Context → Request → JtiCache → Context × Option Error × JtiCache
  by_oidc ctx r cache = handle_oidc w ctx r cache

  module _ (ctx : Context) (r : Incoming) (cache : JtiCache) (s : State w) where
    abbrev served : Operation → Reply × JtiCache × State w
    served op =
        serve_operation w.lib w.jx by_oidc (handler w) (elem_is_escaped w.lib r) op ctx r cache s

    pub serve_lem :
        (op : Operation)
        → route r.method (elem_of w.lib r) ≡ some (handle op)
        → serve w ctx r cache s ≡ served op
    unfolding serve_http cut_prefix serve_route
    serve_lem op h = ground arith

    -- What a request has done that starts no installation.
    pub record StartsNothing : Type 0 where
      pub jobs : (serve w ctx r cache s).2.system.jobs ≡ s.system.jobs
      pub status : (n : ℕ) → (serve w ctx r cache s).0 ≡ written n → (n ≡ 200) ⊎ (n ≡ 404)

    -- What a request has done that starts `job`.
    pub record Starts (job : Job w.installer.Chart) : Type 0 where
      pub request : IsInstallation ctx r cache s job
      pub jobs : (serve w ctx r cache s).2.system.jobs ≡ job ∷ s.system.jobs
      pub status : (n : ℕ) → (serve w ctx r cache s).0 ≡ written n → n ≡ 202

    reads-StartsNothing :
        (op : Operation)
        → serve w ctx r cache s ≡ served op
        → OnlyReads w ((served op).0, (served op).2) s
        → StartsNothing
    reads-StartsNothing op here reads = record {
      jobs =
          ap (λ (x : Reply × JtiCache × State w). x.2.system.jobs) here
          ∙ ap (λ (x : System.State w.repo w.client w.installer). x.jobs) reads.kept;
      status = λ n h. reads.status n (ground arith);
    }

    pub unrouted :
        (o : Option Route)
        → o ≡ route r.method (elem_of w.lib r)
        → ((op : Operation) × (route r.method (elem_of w.lib r) ≡ some (handle op))) ⊎ StartsNothing
    unfolding serve_http cut_prefix serve_route
    unrouted none h = inr (record { jobs = ground arith; status = λ n k. ground arith })
    unrouted (some (Router.not_allowed a)) h =
        inr (record { jobs = ground arith; status = λ n k. ground arith })
    unrouted (some (handle op)) h = inl (op, sym h)

    installs :
        (i : String)
        → route r.method (elem_of w.lib r) ≡ some (handle (install_service i))
        → ((job : Job w.installer.Chart) × Starts job) ⊎ StartsNothing
    unfolding serve_operation handle_install_service_request
    installs i h =
        let here = serve_lem (install_service i) h in
        let escaped = elem_is_escaped w.lib r in
        let (by_put, at_release, one_segment, reached) =
          (route_iff r.method (elem_of w.lib r) (install_service i)).0 h in
        let left = ap (λ (x : Reply × JtiCache × State w). x.2.system.jobs) here in
        elim (guarded_cases w.lib by_oidc (true ∷ []) (answered w escaped i r) ctx r cache s) [
          | inl (e, reply, state) ↦ inr (record {
            jobs = left ∙ ap (λ (x : State w). x.system.jobs) state;
            status = λ n k. ground arith;
          })
          | inr (sctx, p, reply, state) ↦ elim (answered_cases w escaped i r sctx s) [
            | inr refused ↦ inr (record {
              jobs = left ∙ ap (λ (x : State w). x.system.jobs) state ∙ refused.jobs;
              status = λ n k. absurd (refused.not_written n (ground arith));
            })
            | inl started ↦ inl (
              started.job,
              record {
                request = record {
                  release_id = i;
                  by_put = by_put;
                  at_release = at_release;
                  one_segment = one_segment;
                  reached = reached;
                  sctx = sctx;
                  authenticated =
                      let (passed, context) = secured_lem w.lib by_oidc ctx r cache sctx p in
                      (verify_request_iff w.verifier w.auth w.jose w.url_string w.clock ctx
                          (request_of r) cache sctx).0
                        (context, passed);
                  params = started.params;
                  given = started.given;
                  body = started.body;
                  decoded = started.decoded;
                  installed = started.installed;
                };
                jobs = left ∙ ap (λ (x : State w). x.system.jobs) state ∙ started.jobs;
                status = λ n k. started.status n (ground arith);
              },
            )
          ]
        ]

    pub of_operation :
        (op : Operation)
        → route r.method (elem_of w.lib r) ≡ some (handle op)
        → ((job : Job w.installer.Chart) × Starts job) ⊎ StartsNothing
    unfolding serve_operation handle_get_my_catalogs_request handle_get_my_package_request
        handle_get_package_schema_request handle_watch_release_request
        handle_watch_resources_request
    of_operation get_my_catalogs h = inr (
        reads-StartsNothing get_my_catalogs (serve_lem get_my_catalogs h) (
          guarded-OnlyReads w (false ∷ true ∷ []) _ (λ sctx s. catalogs-OnlyReads w sctx s) ctx r
            cache s))
    of_operation (get_my_package i p) h = inr (
        reads-StartsNothing (get_my_package i p) (serve_lem (get_my_package i p) h) (
          guarded-OnlyReads w (true ∷ []) _
            (λ sctx s. package-OnlyReads w (elem_is_escaped w.lib r) i p sctx s) ctx r cache s))
    of_operation (watch_release i) h = inr (
        reads-StartsNothing (watch_release i) (serve_lem (watch_release i) h) (
          guarded-OnlyReads w (true ∷ []) _
            (λ sctx s. watch_release-OnlyReads w (elem_is_escaped w.lib r) i r sctx s) ctx r cache
            s))
    of_operation (watch_resources i) h = inr (
        reads-StartsNothing (watch_resources i) (serve_lem (watch_resources i) h) (
          guarded-OnlyReads w (true ∷ []) _
            (λ sctx s. watch_resources-OnlyReads w (elem_is_escaped w.lib r) i r sctx s) ctx r cache
            s))
    of_operation (get_package_schema i p v) h = inr (
        reads-StartsNothing (get_package_schema i p v) (serve_lem (get_package_schema i p v) h) (
          guarded-OnlyReads w (true ∷ []) _
            (λ sctx s. schema-OnlyReads w (elem_is_escaped w.lib r) i p v sctx s) ctx r cache s))
    of_operation (install_service i) h = installs i h
