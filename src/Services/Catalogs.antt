-- ===== src/Services/Catalogs.antt =====
-- services/usecase/catalog.go, over the interface of services/ports/catalog_repository.go
pub mod Listed
use onyxia_backend.Common.{
  String, ◌≡◌, Bool, true, false, not, ◌&&◌, ◌||◌, Option, none, some, List, [], ◌∷◌, Dict, lookup,
  ◌==◌, is_empty, Error, sentinel, err_not_found, wrapf, wrapping, Result, ok, err, if◌then◌else◌,
}
use onyxia_backend.Common.Any.{Any, str, strs, arr, null, boolean, number, obj, items}
use onyxia_backend.UserContext.{Context, get_attributes}
use onyxia_backend.Services.Config.{Restriction, CatalogConfig, Regexps}
use onyxia_backend.Services.Domain.{
  LocalizedString, Localizable, multi_lang, new_localized_string, zero_localized_string, Package,
  PackageRef, PackageVersion, Catalog,
}

-- `ports.PackageRepository`; a schema is a text.
pub record PackageRepository : Type 1 where
  pub State : Type 0
  pub list_packages : (catalog_id : String) → State → Result (List Package) × State
  pub get_package : (catalog_id name : String) → State → Result (Option PackageRef) × State
  pub get_package_schema :
      (catalog_id package_name version : String) → State → Result String × State
  pub resolve_package :
      (catalog_id package_name version : String) → State → Result PackageVersion × State

module _ (re : Regexps) where
  some_match : re.Regexp → List String → Bool
  some_match r [] = false
  some_match r (s ∷ ss) = re.match_string r s || some_match r ss

  -- The elements that are no texts are passed over.
  some_text_match : re.Regexp → List Any → Bool
  some_text_match r [] = false
  some_text_match r (str s ∷ vs) = re.match_string r s || some_text_match r vs
  some_text_match r (_ ∷ vs) = some_text_match r vs

  -- The type switch on the value of an attribute
  unfoldable pub matches : re.Regexp → Any → Bool
  unfolding some_match some_text_match
  matches r (str s) = re.match_string r s
  matches r (strs ss) = some_match r ss
  matches r (arr vs) = some_text_match r (items vs)
  matches r _ = false

  -- One round of the loop over the restrictions
  unfoldable pub is_met : Dict Any → Restriction → Bool
  unfolding matches lookup
  is_met attrs r =
      not (r.user_attribute_key == "" || r.match_pattern == "")
      && elim (lookup r.user_attribute_key attrs) [
        | none ↦ false
        | some val ↦ elim (re.compile r.match_pattern) [ err e ↦ false | ok p ↦ matches p val ]
      ]

  some_met : Dict Any → List Restriction → Bool
  unfolding is_met
  some_met attrs [] = false
  some_met attrs (r ∷ rs) = is_met attrs r || some_met attrs rs

  -- The test of `ListUserCatalogs`
  unfoldable pub is_for_user : Option (Dict Any) → CatalogConfig → Bool
  unfolding some_met
  is_for_user attributes c =
      is_empty c.restrictions
      || elim attributes [ none ↦ false | some attrs ↦ some_met attrs c.restrictions ]

-- The test of `ListPublicCatalogs`
abbrev pub is_public : CatalogConfig → Bool
is_public c = is_empty c.restrictions

localized : Result LocalizedString → LocalizedString
localized (ok s) = s
localized (err e) = zero_localized_string

unfoldable pub catalog_of : CatalogConfig → List Package → Catalog
unfolding localized new_localized_string
catalog_of cfg pkgs = record {
  id = cfg.id;
  name = localized (new_localized_string (multi_lang cfg.name));
  description = localized (new_localized_string (multi_lang cfg.description));
  status = cfg.status;
  highlighted_packages = cfg.highlighted;
  packages = pkgs;
}

abbrev pub also {ℓ} : {S : Type ℓ} → Catalog → Result (List Catalog) × S → Result (List Catalog) × S
also c (ok cs, s) = (ok (c ∷ cs), s)
also c (err e, s) = (err e, s)

-- `findCatalog`
unfoldable pub find_catalog : List CatalogConfig → String → Result CatalogConfig
find_catalog [] catalog_id = err (wrapf "catalog %q: %w" (catalog_id ∷ []) (sentinel err_not_found))
find_catalog (c ∷ cs) catalog_id = if c.id == catalog_id then ok c else find_catalog cs catalog_id

module _ (repo : PackageRepository) where
  open repo use {State}

  -- `buildCatalogs`
  unfoldable pub build_catalogs :
      (CatalogConfig → Bool) → List CatalogConfig → State → Result (List Catalog) × State
  unfolding catalog_of
  build_catalogs include [] s = (ok [], s)
  build_catalogs include (cfg ∷ cfgs) s = elim (include cfg) [
    | false ↦ build_catalogs include cfgs s
    | true ↦
        let (listed, s') = repo.list_packages cfg.id s in
        elim listed [
          | err e ↦ (err (wrapf "catalog %q: list packages: %w" (cfg.id ∷ []) e), s')
          | ok pkgs ↦ also (catalog_of cfg pkgs) (build_catalogs include cfgs s')
        ]
  ]

  unfoldable pub list_public_catalogs : List CatalogConfig → State → Result (List Catalog) × State
  unfolding build_catalogs
  list_public_catalogs cfgs s = build_catalogs is_public cfgs s

  unfoldable pub list_user_catalogs :
      Regexps → Context → List CatalogConfig → State → Result (List Catalog) × State
  unfolding build_catalogs is_for_user get_attributes
  list_user_catalogs re ctx cfgs s = build_catalogs (is_for_user re (get_attributes ctx)) cfgs s

  found_package :
      (catalog_id package_name : String)
      → Result (Option PackageRef) × State
      → Result PackageRef × State
  found_package catalog_id package_name (err e, s) =
      (err (wrapf "catalog %q package %q: %w" (catalog_id ∷ package_name ∷ []) e), s)
  found_package catalog_id package_name (ok none, s) = (
    err (
        wrapf "package %q in catalog %q: %w" (package_name ∷ catalog_id ∷ [])
          (sentinel err_not_found)),
    s,
  )
  found_package catalog_id package_name (ok (some pkg), s) = (ok pkg, s)

  unfoldable pub get_package :
      List CatalogConfig → (catalog_id package_name : String) → State → Result PackageRef × State
  unfolding find_catalog found_package
  get_package cfgs catalog_id package_name s = elim (find_catalog cfgs catalog_id) [
    | err e ↦ (err e, s)
    | ok c ↦ found_package catalog_id package_name (repo.get_package catalog_id package_name s)
  ]

  unfoldable pub get_package_schema :
      List CatalogConfig
      → (catalog_id package_name version : String) → State
      → Result String × State
  unfolding find_catalog
  get_package_schema cfgs catalog_id package_name version s = elim (find_catalog cfgs catalog_id) [
    | err e ↦ (err e, s)
    | ok c ↦ repo.get_package_schema catalog_id package_name version s
  ]
