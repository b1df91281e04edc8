-- ===== src/Services/Install.antt =====
-- services/domain/service_lifecycle.go, `Start` of services/usecase/service_lifecycle.go and
-- services/api/controller/install_service.go
pub mod Accepted
pub mod Nowhere
use onyxia_backend.Common.{
  String, ◌≡◌, Bool, true, false, not, Option, none, some, List, [], ◌∷◌, Dict, insert, ◌==◌, Error,
  err_invalid_input, err_forbidden, err_already_exists, is, errorf, wrapf, Result, ok, err,
  if◌then◌else◌,
}
use onyxia_backend.Common.Any.{Any}
use onyxia_backend.UserContext.{Context, User, get_user}
use onyxia_backend.Services.Domain.{PackageVersion}

pub record StartRequest : Type 0 where
  pub username : String
  pub onyxia_project : String
  pub catalog_id : String
  pub package_name : String
  pub version : String
  pub release_id : String
  pub namespace : String
  pub friendly_name : String
  pub name : String
  pub share : Bool
  pub values : Dict Any

-- The methods that `Start` calls of the three ports, on one state. The callbacks of an installation
-- only log.
pub record Ports : Type 1 where
  pub State : Type 0
  pub resolve_package :
      (catalog_id package_name version : String) → State → Result PackageVersion × State
  pub ensure_onyxia_secret :
      (namespace name : String) → Dict String → State → Result (Unit {0}) × State
  pub start_install :
      (release_name : String) → PackageVersion → Dict Any → State → Result (Unit {0}) × State

abbrev pub format_bool : Bool → String
format_bool true = "true"
format_bool false = "false"

abbrev pub secret_data : StartRequest → Dict String
secret_data req =
    ("catalog", req.catalog_id)
    ∷ ("friendlyName", req.friendly_name)
    ∷ ("owner", req.username)
    ∷ ("share", format_bool req.share)
    ∷ []

module _ (p : Ports) where
  open p use {State}

  unfoldable pub started : Result (Unit {0}) × State → Result (Unit {0}) × State
  started (ok u, s) = (ok tt, s)
  started (err e, s) = (err (wrapf "helm start: %w" [] e), s)

  unfoldable pub with_secret :
      StartRequest → PackageVersion → Result (Unit {0}) × State → Result (Unit {0}) × State
  unfolding started
  with_secret req pkg (ok u, s) = started (p.start_install req.name pkg req.values s)
  with_secret req pkg (err e, s) = (err (wrapf "create onyxia secret: %w" [] e), s)

  unfoldable pub with_package :
      StartRequest → Result PackageVersion × State → Result (Unit {0}) × State
  unfolding with_secret
  with_package req (ok pkg, s) =
      with_secret req pkg (p.ensure_onyxia_secret req.namespace req.release_id (secret_data req) s)
  with_package req (err e, s) = (err (wrapf "resolve package: %w" [] e), s)

  -- `Start`
  unfoldable pub start : StartRequest → State → Result (Unit {0}) × State
  unfolding with_package
  start req s = with_package req (p.resolve_package req.catalog_id req.package_name req.version s)

-- The body of a request to install; an option is its JSON text.
pub record InstallRequest : Type 0 where
  pub package_name : String
  pub catalog_id : String
  pub name : String
  pub version : Option String
  pub friendly_name : Option String
  pub options : Option (Dict String)

pub record InstallParams : Type 0 where
  pub release_id : String
  pub onyxia_project : Option String

pub data InstallRes : Type 0 where
  install_accepted install_bad_request install_forbidden install_conflict : InstallRes
  install_internal_server_error : InstallRes

abbrev pub or_else : Option String → String → String
or_else none d = d
or_else (some s) d = s

-- The request that the controller passes on; it sets neither the namespace nor the sharing.
abbrev pub start_request : User → InstallRequest → InstallParams → Dict Any → StartRequest
start_request u req params values = record {
  username = u.username;
  onyxia_project = or_else params.onyxia_project "";
  catalog_id = req.catalog_id;
  package_name = req.package_name;
  version = or_else req.version "latest";
  release_id = params.release_id;
  namespace = "";
  friendly_name = or_else req.friendly_name req.package_name;
  name = req.name;
  share = false;
  values = values;
}

-- `unmarshal` is `json.Unmarshal` of a text into an `any`.
module _ (unmarshal : String → Result Any) where
  -- The loop over the options
  unfoldable pub unmarshal_options : Dict String → Dict Any → Result (Dict Any)
  unmarshal_options [] values = ok values
  unmarshal_options ((k, raw) ∷ options) values = elim (unmarshal raw) [
    | err e ↦ err (wrapf "unmarshal values[%q]: %w" (k ∷ []) e)
    | ok v ↦ unmarshal_options options (insert k v values)
  ]

  -- The guards on the body, and the values that it has
  unfoldable pub values_of : Option InstallRequest → Result (InstallRequest × Dict Any)
  unfolding unmarshal_options
  values_of none = err (errorf "request body is required" [])
  values_of (some req) =
      if req.package_name == ""
      then err (errorf "packageName is required" [])
      else if req.catalog_id == ""
      then err (errorf "catalogId is required" [])
      else elim req.options [
        | none ↦ err (errorf "options are required" [])
        | some options ↦ elim (unmarshal_options options []) [
          | err e ↦ err e
          | ok values ↦ ok (req, values)
        ]
      ]

  module _ {S : Type 0} (start_usecase : StartRequest → S → Result (Unit {0}) × S) where
    unfoldable pub response : Error → InstallRes
    response e =
        if is e err_invalid_input
        then install_bad_request
        else if is e err_forbidden
        then install_forbidden
        else if is e err_already_exists
        then install_conflict
        else install_internal_server_error

    unfoldable pub answer : Result (Unit {0}) × S → (InstallRes × Option Error) × S
    unfolding response
    answer (ok u, s) = ((install_accepted, none), s)
    answer (err e, s) = ((response e, some e), s)

    unfoldable pub for_user :
        InstallParams
        → User
        → Result (InstallRequest × Dict Any)
        → S
        → (InstallRes × Option Error) × S
    unfolding answer
    for_user params u (err e) s = ((install_bad_request, some e), s)
    for_user params u (ok (req, values)) s =
        answer (start_usecase (start_request u req params values) s)

    -- `InstallService`
    unfoldable pub install_service :
        Context → Option InstallRequest → InstallParams → S → (InstallRes × Option Error) × S
    unfolding for_user values_of get_user
    install_service ctx req params s = elim (get_user ctx) [
      | none ↦ ((install_forbidden, some (errorf "user not found" [])), s)
      | some u ↦ for_user params u (values_of req) s
    ]
