-- ===== src/Services/Controller.antt =====
-- services/api/controller/catalog.go
pub mod Shown
use onyxia_backend.Common.{
  String, ◌≡◌, Bool, true, false, not, ◌||◌, Option, none, some, List, [], ◌∷◌, map, Dict, ◌==◌, is,
  err_not_found, Error, wrapf, Result, ok, err, if◌then◌else◌,
}
use onyxia_backend.UserContext.{Context, User, get_user}
use onyxia_backend.Dpop.Request.{Url}
use onyxia_backend.Services.Config.{CatalogConfig, Regexps}
use onyxia_backend.Services.Domain
use onyxia_backend.Services.Domain.{LocalizedString, PackageRef, get_plain, get_multi}
use onyxia_backend.Services.Catalogs
use onyxia_backend.Services.Catalogs.{PackageRepository, list_public_catalogs, list_user_catalogs}

-- `api.LocalizedString`; the map may be nil.
pub data ApiText : Type 0 where
  one_language : String → ApiText
  languages : Option (Dict String) → ApiText

pub record ApiPackage : Type 0 where
  pub name : String
  pub description : String
  pub icon : Url
  pub home : Url

pub record ApiCatalog : Type 0 where
  pub id : String
  pub name : Option ApiText
  pub description : Option ApiText
  pub status : Option String
  pub highlighted_packages : List String
  pub packages : List ApiPackage

-- The two tests that set a text of the answer; the second has the last word.
unfoldable pub api_text : LocalizedString → Option ApiText
unfolding get_plain get_multi
api_text s = elim (get_multi s) [
  | some m ↦ some (languages m)
  | none ↦ elim (get_plain s) [ some p ↦ some (one_language p) | none ↦ none ]
]

abbrev pub api_package : Domain.Package → ApiPackage
api_package p = record {
  name = p.name;
  description = p.description;
  icon = p.icon_url;
  home = p.home_url;
}

unfoldable pub api_status : String → Option String
api_status status = if status == "PROD" || status == "TEST" then some status else none

unfoldable pub api_catalog : Domain.Catalog → ApiCatalog
unfolding api_text api_status
api_catalog c = record {
  id = c.id;
  name = api_text c.name;
  description = api_text c.description;
  status = api_status c.status;
  highlighted_packages = c.highlighted_packages;
  packages = map api_package c.packages;
}

-- The answers: a result, or a problem with a status, and the error that is returned along.
pub data CatalogsRes : Type 0 where
  catalogs_ok : List ApiCatalog → CatalogsRes
  catalogs_problem : Error → CatalogsRes

pub data PackageRes : Type 0 where
  package_ok : ApiPackage → (versions : List String) → PackageRes
  package_not_found package_internal_server_error : Error → PackageRes

pub data SchemaRes : Type 0 where
  schema_ok : Dict String → SchemaRes
  schema_bad_request : SchemaRes
  schema_internal_server_error : Error → SchemaRes

unfoldable pub shown :
    {S : Type 0} → Result (List Domain.Catalog) × S → (CatalogsRes × Option Error) × S
unfolding api_catalog
shown (ok cs, s) = ((catalogs_ok (map api_catalog cs), none), s)
shown (err e, s) = ((catalogs_problem e, some e), s)

unfoldable pub shown_package :
    {S : Type 0} → Result PackageRef × S → (PackageRes × Option Error) × S
shown_package (ok r, s) = ((package_ok (api_package r.pkg) r.versions, none), s)
shown_package (err e, s) =
    if is e err_not_found
    then ((package_not_found e, none), s)
    else ((package_internal_server_error e, some e), s)

unfoldable pub shown_schema :
    {S : Type 0}
    → (unmarshal_object : String → Result (Dict String)) → Result String × S
    → (Option SchemaRes × Option Error) × S
shown_schema unmarshal_object (err e, s) = ((some (schema_internal_server_error e), some e), s)
shown_schema unmarshal_object (ok raw, s) = elim (unmarshal_object raw) [
  | err e ↦ ((none, some (wrapf "parsing schema: %w" [] e)), s)
  | ok m ↦ ((some (schema_ok m), none), s)
]

-- The controller, on the catalog use case
module _ (re : Regexps) (repo : PackageRepository) (cfgs : List CatalogConfig) where
  open repo use {State}

  unfoldable pub catalogs_for : Context → Option User → State → (CatalogsRes × Option Error) × State
  unfolding shown list_user_catalogs list_public_catalogs
  catalogs_for ctx (some u) s = shown (list_user_catalogs repo re ctx cfgs s)
  catalogs_for ctx none s = shown (list_public_catalogs repo cfgs s)

  -- `GetMyCatalogs`
  unfoldable pub get_my_catalogs : Context → State → (CatalogsRes × Option Error) × State
  unfolding catalogs_for get_user
  get_my_catalogs ctx s = catalogs_for ctx (get_user ctx) s

  -- `GetMyPackage`
  unfoldable pub get_my_package :
      (catalog_id package_name : String) → State → (PackageRes × Option Error) × State
  unfolding shown_package Catalogs.get_package
  get_my_package catalog_id package_name s =
      shown_package (Catalogs.get_package repo cfgs catalog_id package_name s)

  -- `GetPackageSchema`; `unmarshal_object` is `json.Unmarshal` of a text into a map of raw values.
  -- If it fails, the answer is nil.
  unfoldable pub get_package_schema :
      (unmarshal_object : String → Result (Dict String))
      → (catalog_id package_name version : String) → State
      → (Option SchemaRes × Option Error) × State
  unfolding shown_schema Catalogs.get_package_schema
  get_package_schema unmarshal_object catalog_id package_name version s =
      shown_schema unmarshal_object
        (Catalogs.get_package_schema repo cfgs catalog_id package_name version s)
