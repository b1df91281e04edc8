-- ===== src/Services/Server/Answers.antt =====
-- Who is answered by the server of the services API, with the verification of requests.
use onyxia_backend.Common.{
  ℕ, String, ◌≡◌, ◌⊎◌, inl, inr, refl, Bool, true, false, Option, none, List, [], ◌∷◌, Error,
  Result, ok, err, arith, is, err_not_found, Bool-cases,
}
use onyxia_backend.UserContext.{Context}
use onyxia_backend.Dpop.Jti.{JtiCache}
use onyxia_backend.Dpop.Request.{Url, Request}
use onyxia_backend.Dpop.Verify.{Jose, failure}
use onyxia_backend.Oidc.Verify.{TokenVerifier, Auth, Clock, authorization, verify_request}
use onyxia_backend.Oidc.Verify.Binding.{IsAuthenticated, verify_request_iff}
use onyxia_backend.Oidc.Verify.Identity.{unauthorized}
use onyxia_backend.Services.Config.{CatalogConfig, Regexps}
use onyxia_backend.Server.Passed.{secured_cases, secured_lem}
use onyxia_backend.Services.Domain.{PackageRef}
use onyxia_backend.Services.Catalogs
use onyxia_backend.Services.Catalogs.{PackageRepository}
use onyxia_backend.Services.Controller.{get_my_catalogs, shown_package, get_my_package}
use onyxia_backend.Server.{
  Incoming, request_of, ServerError, security_error, failed, written, HttpLib, security_oidc,
  secured, guarded, respond-written,
}
use onyxia_backend.Services.Server.{
  encode_get_my_package, decode_get_my_package_params, handle_get_my_catalogs_request,
  handle_get_my_package_request, package_answer,
}

params_cases :
    (o : (String × String) ⊎ ServerError)
    → ((p : String × String) × (o ≡ inl p)) ⊎ ((e : ServerError) × (o ≡ inr e))
params_cases (inl p) = inl (p, refl)
params_cases (inr e) = inr (e, refl)

module _ (lib : HttpLib) (v : TokenVerifier) (a : Auth) (j : Jose) (url_string : Url → String)
    (clock : Clock) (re : Regexps) (repo : PackageRepository) (cfgs : List CatalogConfig) where
  open repo use {State}

  abbrev pub handle_oidc : Context → Request → JtiCache → Context × Option Error × JtiCache
  handle_oidc ctx r cache = verify_request v a j url_string clock ctx r cache

  abbrev pub missing : Error
  missing = failure "missing authorization header"

  -- A request for the catalogs without an authorization is refused, although the operation has an
  -- alternative without requirement and the controller has a listing for it: the verification of
  -- requests answers with an error that is not `ErrSkipServerSecurity`, and nothing is listed.
  pub anonymous_refused :
      (ctx : Context) (r : Incoming) (cache : JtiCache) (s : State)
      → authorization (request_of r) ≡ none
      → lib.is_skip missing ≡ false
      → handle_get_my_catalogs_request lib handle_oidc (get_my_catalogs re repo cfgs) ctx r cache s
        ≡ (failed (security_error "Oidc" missing), cache, s)
  unfolding handle_get_my_catalogs_request guarded secured security_oidc
  anonymous_refused ctx r cache s h k =
      let refused = unauthorized v a j url_string clock ctx (request_of r) cache h in
      ground (arith, refused)

  shown_package-written :
      (o : Result PackageRef × State) (status : ℕ)
      → (shown_package o).0.1 ≡ none
      → status ≡ encode_get_my_package (shown_package o).0.0
      → ((status ≡ 200) × (ref : PackageRef) × (o.0 ≡ ok ref))
        ⊎ ((status ≡ 404) × (e : Error) × (o.0 ≡ err e) × (is e err_not_found ≡ true))
  unfolding shown_package encode_get_my_package
  shown_package-written (ok ref, s) status h k = inl (k, ref, refl)
  shown_package-written (err e, s) status h k = elim (Bool-cases (is e err_not_found)) [
    | inl n ↦ inr (ground arith, e, refl, n)
    | inr n ↦ ground arith
  ]

  -- A response for a package is sent only for a request that is authenticated and whose parameters
  -- decode. Its status is 200, and the package is found, or 404, and the error is that something is
  -- not found.
  pub package_written :
      (ctx : Context) (r : Incoming) (cache : JtiCache) (s : State) (escaped : Bool)
      (catalog_id package_name : String) (status : ℕ)
      → (handle_get_my_package_request lib handle_oidc
          (get_my_package re repo cfgs)
          escaped
          catalog_id
          package_name
          ctx
          r
          cache
          s).0
        ≡ written status
      → (sctx : Context) × (i : String) × (n : String) × IsAuthenticated v a j url_string clock ctx
          (request_of r)
          cache
          sctx
        × (decode_get_my_package_params lib escaped catalog_id package_name ≡ inl (i, n))
        × (((status ≡ 200)
              × (ref : PackageRef) × ((Catalogs.get_package repo cfgs i n s).0 ≡ ok ref))
            ⊎ ((status ≡ 404)
                × (e : Error) × ((Catalogs.get_package repo cfgs i n s).0 ≡ err e)
                × (is e err_not_found ≡ true)))
  unfolding handle_get_my_package_request guarded package_answer get_my_package
  package_written ctx r cache s escaped catalog_id package_name status h =
      elim (secured_cases (secured lib handle_oidc (true ∷ []) ctx r cache).0) [
        | inr (e, p) ↦ ground arith
        | inl (sctx, p) ↦
            elim (params_cases (decode_get_my_package_params lib escaped catalog_id package_name)) [
              | inr (e, d) ↦ ground arith
              | inl ((i, n), d) ↦
                  let (passed, context) = secured_lem lib handle_oidc ctx r cache sctx p in
                  let found = Catalogs.get_package repo cfgs i n s in
                  let (fine, code) =
                    respond-written encode_get_my_package (shown_package found) status
                      (ground arith) in
                  (
                    sctx,
                    i,
                    n,
                    (verify_request_iff v a j url_string clock ctx (request_of r) cache sctx).0
                        (context, passed),
                    d,
                    shown_package-written found status fine code,
                  )
            ]
      ]
