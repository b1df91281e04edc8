-- ===== src/Services/Server.antt =====
-- services/api/oas: the handlers of the generated server of the services API for the catalogs and
-- for a package, over the controller of catalogs
pub mod Answers
pub mod InstallBody
pub mod Params
pub mod Statuses
pub mod Handlers
pub mod Serve
pub mod Whole
use onyxia_backend.Common.{
  ℕ, String, ◌⊎◌, inl, inr, Bool, true, false, Option, none, some, List, [], ◌∷◌, Error, Result, ok,
  err,
}
use onyxia_backend.UserContext.{Context}
use onyxia_backend.Dpop.Request.{Request}
use onyxia_backend.Services.Controller.{
  CatalogsRes, catalogs_ok, catalogs_problem, PackageRes, package_ok, package_not_found,
  package_internal_server_error,
}
use onyxia_backend.Server.{
  Incoming, ServerError, decode_params_error, Reply, failed, HttpLib, guarded, respond,
  decode_path_param,
}

-- The statuses that `encodeGetMyCatalogsResponse` and `encodeGetMyPackageResponse` write
unfoldable pub encode_get_my_catalogs : CatalogsRes → ℕ
encode_get_my_catalogs (catalogs_ok cs) = 200
encode_get_my_catalogs (catalogs_problem e) = 500

unfoldable pub encode_get_my_package : PackageRes → ℕ
encode_get_my_package (package_ok p versions) = 200
encode_get_my_package (package_not_found e) = 404
encode_get_my_package (package_internal_server_error e) = 500

-- `decodeGetMyPackageParams`
unfoldable pub decode_get_my_package_params :
    HttpLib
    → (escaped : Bool) → (catalog_id package_name : String) → (String × String) ⊎ ServerError
unfolding decode_path_param
decode_get_my_package_params lib escaped catalog_id package_name =
    elim (decode_path_param lib escaped catalog_id) [
      | err e ↦ inr (decode_params_error "catalogId" e)
      | ok c ↦ elim (decode_path_param lib escaped package_name) [
        | err e ↦ inr (decode_params_error "packageName" e)
        | ok p ↦ inl (c, p)
      ]
    ]

module _ {S : Type 0} (lib : HttpLib) where
  -- `handleGetMyPackageRequest`, after its security block
  unfoldable pub package_answer :
      (get_my_package : String → String → S → (PackageRes × Option Error) × S)
      → (escaped : Bool) → (catalog_id package_name : String) → Context
      → S
      → Reply × S
  unfolding respond encode_get_my_package decode_get_my_package_params
  package_answer get_my_package escaped catalog_id package_name ctx s =
      elim (decode_get_my_package_params lib escaped catalog_id package_name) [
        | inr e ↦ (failed e, s)
        | inl params ↦ respond encode_get_my_package (get_my_package (params.0) (params.1) s)
      ]

module _ {C S : Type 0} (lib : HttpLib)
    (handle_oidc : Context → Request → C → Context × Option Error × C) where
  -- `handleGetMyCatalogsRequest`: no requirement is one of the alternatives.
  unfoldable pub handle_get_my_catalogs_request :
      (get_my_catalogs : Context → S → (CatalogsRes × Option Error) × S)
      → Context
      → Incoming
      → C
      → S
      → Reply × C × S
  unfolding guarded respond encode_get_my_catalogs
  handle_get_my_catalogs_request get_my_catalogs ctx r c s =
      guarded lib handle_oidc (false ∷ true ∷ [])
        (λ sctx s. respond encode_get_my_catalogs (get_my_catalogs sctx s)) ctx r c s

  -- `handleGetMyPackageRequest`
  unfoldable pub handle_get_my_package_request :
      (get_my_package : String → String → S → (PackageRes × Option Error) × S)
      → (escaped : Bool) → (catalog_id package_name : String) → Context
      → Incoming
      → C
      → S
      → Reply × C × S
  unfolding guarded package_answer
  handle_get_my_package_request get_my_package escaped catalog_id package_name ctx r c s =
      guarded lib handle_oidc (true ∷ [])
        (λ sctx s. package_answer lib get_my_package escaped catalog_id package_name sctx s) ctx r c
        s
