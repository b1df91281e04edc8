-- ===== src/Services/Server/Handlers.antt =====
-- services/api/oas/oas_handlers_gen.go: the handlers of the operations on a schema and on a release
use onyxia_backend.Common.{String, inl, inr, Bool, true, Option, some, [], ◌∷◌, Error}
use onyxia_backend.UserContext.{Context}
use onyxia_backend.Dpop.Request.{Request}
use onyxia_backend.Services.Install.{InstallRequest, InstallParams, InstallRes}
use onyxia_backend.Services.Controller.{SchemaRes}
use onyxia_backend.Server.{
  Incoming, decode_request_error, Reply, failed, HttpLib, guarded, respond_if,
}
use onyxia_backend.Server.Body.{Jx}
use onyxia_backend.Services.Server.InstallBody.{decode_install_service_request, install_request}
use onyxia_backend.Services.Server.Params.{
  WatchParams, decode_get_package_schema_params, decode_install_service_params,
  decode_watch_release_params, decode_watch_resources_params,
}
use onyxia_backend.Services.Server.Statuses.{
  WatchRes, encode_get_package_schema, encode_install_service, encode_watch_release,
  encode_watch_resources,
}

module _ {S : Type 0} (lib : HttpLib) where
  -- `handleGetPackageSchemaRequest`, after its security block
  unfoldable pub schema_answer :
      (get_package_schema : String → String → String → S → (Option SchemaRes × Option Error) × S)
      → (escaped : Bool) → (catalog_id package_name version : String) → Context
      → S
      → Reply × S
  unfolding respond_if encode_get_package_schema decode_get_package_schema_params
  schema_answer get_package_schema escaped catalog_id package_name version ctx s =
      elim (decode_get_package_schema_params lib escaped catalog_id package_name version) [
        | inr e ↦ (failed e, s)
        | inl p ↦
            respond_if lib (encode_get_package_schema)
              (get_package_schema p.catalog_id p.package_name p.version s)
      ]

  -- `handleInstallServiceRequest`, after its security block
  unfoldable pub install_answer :
      (jx : Jx)
      → (install_service : Context
          → Option InstallRequest
          → InstallParams
          → S
          → (InstallRes × Option Error) × S)
      → (escaped : Bool) → (release_id : String) → Incoming
      → Context
      → S
      → Reply × S
  unfolding respond_if encode_install_service decode_install_service_params
      decode_install_service_request
  install_answer jx install_service escaped release_id r ctx s =
      elim (decode_install_service_params lib escaped release_id r.header) [
        | inr e ↦ (failed e, s)
        | inl params ↦ elim (decode_install_service_request jx lib r) [
          | inr e ↦ (failed (decode_request_error e), s)
          | inl req ↦
              respond_if lib (encode_install_service lib)
                (install_service ctx (some (install_request req)) params s)
        ]
      ]

  -- `handleWatchReleaseRequest`, after its security block
  unfoldable pub watch_release_answer :
      (watch_release : Context → WatchParams → S → (Option WatchRes × Option Error) × S)
      → (escaped : Bool) → (release_id : String) → Incoming
      → Context
      → S
      → Reply × S
  unfolding respond_if encode_watch_release decode_watch_release_params
  watch_release_answer watch_release escaped release_id r ctx s =
      elim (decode_watch_release_params lib escaped release_id r.header) [
        | inr e ↦ (failed e, s)
        | inl p ↦ respond_if lib (encode_watch_release lib) (watch_release ctx p s)
      ]

  -- `handleWatchResourcesRequest`, after its security block
  unfoldable pub watch_resources_answer :
      (watch_resources : Context → WatchParams → S → (Option WatchRes × Option Error) × S)
      → (escaped : Bool) → (release_id : String) → Incoming
      → Context
      → S
      → Reply × S
  unfolding respond_if encode_watch_resources decode_watch_resources_params
  watch_resources_answer watch_resources escaped release_id r ctx s =
      elim (decode_watch_resources_params lib escaped release_id r.header) [
        | inr e ↦ (failed e, s)
        | inl p ↦ respond_if lib (encode_watch_resources lib) (watch_resources ctx p s)
      ]

module _ {C S : Type 0} (lib : HttpLib)
    (handle_oidc : Context → Request → C → Context × Option Error × C) where
  -- `handleGetPackageSchemaRequest`
  unfoldable pub handle_get_package_schema_request :
      (get_package_schema : String → String → String → S → (Option SchemaRes × Option Error) × S)
      → (escaped : Bool) → (catalog_id package_name version : String) → Context
      → Incoming
      → C
      → S
      → Reply × C × S
  unfolding guarded schema_answer
  handle_get_package_schema_request get_package_schema escaped catalog_id package_name version =
      guarded lib handle_oidc (true ∷ [])
        (schema_answer lib get_package_schema escaped catalog_id package_name version)

  -- `handleInstallServiceRequest`
  unfoldable pub handle_install_service_request :
      (jx : Jx)
      → (install_service : Context
          → Option InstallRequest
          → InstallParams
          → S
          → (InstallRes × Option Error) × S)
      → (escaped : Bool) → (release_id : String) → Context
      → Incoming
      → C
      → S
      → Reply × C × S
  unfolding guarded install_answer
  handle_install_service_request jx install_service escaped release_id ctx r =
      guarded lib handle_oidc (true ∷ [])
        (install_answer lib jx install_service escaped release_id r) ctx r

  -- `handleWatchReleaseRequest`
  unfoldable pub handle_watch_release_request :
      (watch_release : Context → WatchParams → S → (Option WatchRes × Option Error) × S)
      → (escaped : Bool) → (release_id : String) → Context
      → Incoming
      → C
      → S
      → Reply × C × S
  unfolding guarded watch_release_answer
  handle_watch_release_request watch_release escaped release_id ctx r =
      guarded lib handle_oidc (true ∷ [])
        (watch_release_answer lib watch_release escaped release_id r) ctx r

  -- `handleWatchResourcesRequest`
  unfoldable pub handle_watch_resources_request :
      (watch_resources : Context → WatchParams → S → (Option WatchRes × Option Error) × S)
      → (escaped : Bool) → (release_id : String) → Context
      → Incoming
      → C
      → S
      → Reply × C × S
  unfolding guarded watch_resources_answer
  handle_watch_resources_request watch_resources escaped release_id ctx r =
      guarded lib handle_oidc (true ∷ [])
        (watch_resources_answer lib watch_resources escaped release_id r) ctx r
