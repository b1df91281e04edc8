-- ===== src/Services/Server/Serve.antt =====
-- services/api/oas/oas_router_gen.go and oas_server_gen.go: the generated server of the services API,
-- from the HTTP request to the status of the response
use onyxia_backend.Common.{
  String, Bool, true, false, Option, none, some, ◌==◌, Error, if◌then◌else◌,
}
use onyxia_backend.Common.Text.{cut}
use onyxia_backend.UserContext.{Context}
use onyxia_backend.Dpop.Request.{Request}
use onyxia_backend.Services.Install.{InstallRequest, InstallParams, InstallRes}
use onyxia_backend.Services.Controller.{CatalogsRes, PackageRes, SchemaRes}
use onyxia_backend.Services.Router
use onyxia_backend.Services.Router.{
  Operation, get_my_catalogs, get_my_package, watch_release, watch_resources, get_package_schema,
  install_service, Route, handle, route,
}
use onyxia_backend.Server.{Incoming, Reply, not_found, not_allowed, HttpLib, elem_of, cut_prefix}
use onyxia_backend.Server.Body.{Jx}
use onyxia_backend.Services.Server.{handle_get_my_catalogs_request, handle_get_my_package_request}
use onyxia_backend.Services.Server.Params.{WatchParams}
use onyxia_backend.Services.Server.Statuses.{WatchRes}
use onyxia_backend.Services.Server.Handlers.{
  handle_get_package_schema_request, handle_install_service_request, handle_watch_release_request,
  handle_watch_resources_request,
}

-- The interface `Handler`, on the state `S`
pub record Handler (S : Type 0) : Type 0 where
  pub get_my_catalogs : Context → S → (CatalogsRes × Option Error) × S
  pub get_my_package : String → String → S → (PackageRes × Option Error) × S
  pub get_package_schema : String → String → String → S → (Option SchemaRes × Option Error) × S
  pub install_service :
      Context → Option InstallRequest → InstallParams → S → (InstallRes × Option Error) × S
  pub watch_release : Context → WatchParams → S → (Option WatchRes × Option Error) × S
  pub watch_resources : Context → WatchParams → S → (Option WatchRes × Option Error) × S

-- `elemIsEscaped`: the path is one that was normalized, and it has a percent sign.
unfoldable pub elem_is_escaped : HttpLib → Incoming → Bool
unfolding cut
elem_is_escaped lib r =
    if r.raw_path == "" then false else elim (lib.normalize_escaped_path r.raw_path) [
      | none ↦ false
      | some normalized ↦ elim (cut 37 normalized) [ some parts ↦ true | none ↦ false ]
    ]

module _ {C S : Type 0} (lib : HttpLib) (jx : Jx)
    (handle_oidc : Context → Request → C → Context × Option Error × C) (h : Handler S) where
  -- The calls of the handlers in `ServeHTTP`
  unfoldable pub serve_operation :
      (escaped : Bool) → Operation → Context → Incoming → C → S → Reply × C × S
  unfolding handle_get_my_catalogs_request handle_get_my_package_request
      handle_get_package_schema_request handle_install_service_request handle_watch_release_request
      handle_watch_resources_request
  serve_operation escaped get_my_catalogs =
      handle_get_my_catalogs_request lib handle_oidc h.get_my_catalogs
  serve_operation escaped (get_my_package i n) =
      handle_get_my_package_request lib handle_oidc h.get_my_package escaped i n
  serve_operation escaped (get_package_schema i n v) =
      handle_get_package_schema_request lib handle_oidc h.get_package_schema escaped i n v
  serve_operation escaped (install_service i) =
      handle_install_service_request lib handle_oidc jx h.install_service escaped i
  serve_operation escaped (watch_release i) =
      handle_watch_release_request lib handle_oidc h.watch_release escaped i
  serve_operation escaped (watch_resources i) =
      handle_watch_resources_request lib handle_oidc h.watch_resources escaped i

  unfoldable pub serve_route :
      (escaped : Bool) → Option Route → Context → Incoming → C → S → Reply × C × S
  unfolding serve_operation
  serve_route escaped none ctx r c s = (not_found, c, s)
  serve_route escaped (some (Router.not_allowed allowed)) ctx r c s = (not_allowed allowed, c, s)
  serve_route escaped (some (handle op)) ctx r c s = serve_operation escaped op ctx r c s

  -- `ServeHTTP`
  unfoldable pub serve_http : (prefix : String) → Context → Incoming → C → S → Reply × C × S
  unfolding elem_of elem_is_escaped cut_prefix route serve_route
  serve_http prefix ctx r c s = elim (cut_prefix prefix (elem_of lib r)) [
    | none ↦ (not_found, c, s)
    | some elem ↦ serve_route (elem_is_escaped lib r) (route r.method elem) ctx r c s
  ]
