-- ===== src/Services/Config.antt =====
-- services/bootstrap/env/types_catalog.go and services/bootstrap/env/validate.go
pub mod Valid
pub mod Distinct
use onyxia_backend.Common.{
  ℕ, String, ◌≡◌, Bool, true, false, not, ◌||◌, Option, none, some, List, [], ◌∷◌, Dict, lookup,
  insert, ◌==◌, is_empty, Error, errorf, wrapping, Result, ok, err, ◌>>=◌, ◌>>◌, guard,
  if◌then◌else◌, ltb,
}
use onyxia_backend.Common.Int.{ℤ, pos, negsuc}
use onyxia_backend.Common.Text.{trim_space}

pub record Restriction : Type 0 where
  pub user_attribute_key : String
  pub match_pattern : String

pub record OciPackage : Type 0 where
  pub name : String
  pub versions : List String

pub record CatalogConfig : Type 0 where
  pub catalog_type : String
  pub id : String
  pub name : Dict String
  pub description : Dict String
  pub maintainer : String
  pub status : String
  pub highlighted : List String
  pub excluded : List String
  pub skip_tls_verify : Bool
  pub ca_file : Option String
  pub allow_sharing : Bool
  pub restrictions : List Restriction
  pub username : Option String
  pub password : Option String
  pub location : String
  pub multiple_services_mode : String
  pub max_number_of_versions : Option ℤ
  pub packages : Option (List OciPackage)

-- `regexp.Compile` and `Regexp.MatchString`
pub record Regexps : Type 1 where
  pub Regexp : Type 0
  pub compile : String → Result Regexp
  pub match_string : Regexp → String → Bool

abbrev pub is_set {ℓ} : {A : Type ℓ} → Option A → Bool
is_set none = false
is_set (some _) = true

-- A number is given, and it is greater than 0.
abbrev pub is_positive : Option ℤ → Bool
is_positive none = false
is_positive (some (pos n)) = ltb 0 n
is_positive (some (negsuc n)) = false

-- The second switch of `validateCommon`
unfoldable pub check_mode : CatalogConfig → Result (Unit {0})
check_mode cc =
    if cc.multiple_services_mode == "all"
      || cc.multiple_services_mode == "latest"
      || cc.multiple_services_mode == "skipPatches"
    then guard (not (is_set cc.max_number_of_versions)) (
        errorf "catalog %q: maxNumberOfVersions must not be set when multipleServicesMode=%q"
          (cc.id ∷ cc.multiple_services_mode ∷ []))
    else if cc.multiple_services_mode == "maxNumber"
    then guard (is_positive cc.max_number_of_versions) (
        errorf "catalog %q: maxNumberOfVersions must be > 0 when multipleServicesMode=%q"
          (cc.id ∷ cc.multiple_services_mode ∷ []))
    else err (
        errorf "catalog %q: invalid multipleServicesMode %q"
          (cc.id ∷ cc.multiple_services_mode ∷ []))

module _ (re : Regexps) where
  -- The loop of `validateCommon`
  check_restrictions : (id : String) → List Restriction → Result (Unit {0})
  check_restrictions id [] = ok tt
  check_restrictions id (r ∷ rs) =
      let rest = check_restrictions id rs in
      if trim_space r.user_attribute_key == ""
      then err (errorf "catalog %q: restriction missing userAttribute.key" (id ∷ []))
      else (wrapping "catalog %q: invalid restriction regex for key %q: %w"
            (id ∷ r.user_attribute_key ∷ []) (re.compile r.match_pattern)
          >> rest)

  unfoldable pub validate_common : CatalogConfig → Result (Unit {0})
  unfolding check_mode check_restrictions
  validate_common cc = do
    guard (cc.status == "PROD" || cc.status == "TEST") (
        errorf "catalog %q: invalid status %q (expected %q or %q)"
          (cc.id ∷ cc.status ∷ "PROD" ∷ "TEST" ∷ []))
    check_mode cc
    guard (not (cc.id == "")) (errorf "catalog: id is required" [])
    guard (not (is_empty cc.name)) (errorf "catalog %q: name is required" (cc.id ∷ []))
    check_restrictions cc.id cc.restrictions

  -- The loop of `validateOCI`
  check_packages : (id : String) → List OciPackage → Result (Unit {0})
  check_packages id [] = ok tt
  check_packages id (p ∷ ps) =
      let rest = check_packages id ps in
      if p.name == ""
      then err (errorf "catalog %q: oci.package name is required" (id ∷ []))
      else rest

  unfoldable pub validate_oci : CatalogConfig → Result (Unit {0})
  unfolding check_packages
  validate_oci o = elim o.packages [
    | none ↦ err (errorf "catalog %q: oci.packages must not be empty" (o.id ∷ []))
    | some [] ↦ err (errorf "catalog %q: oci.packages must not be empty" (o.id ∷ []))
    | some (p ∷ ps) ↦ check_packages o.id (p ∷ ps)
  ]

  check_type : CatalogConfig → Result (Unit {0})
  unfolding validate_oci
  check_type c =
      if c.catalog_type == "helm"
      then guard (not (is_set c.packages)) (errorf "helm catalog should not have packages" [])
      else if c.catalog_type == "oci"
      then validate_oci c
      else err (
          errorf "catalog: invalid type %q (expected %q or %q)"
            (c.catalog_type ∷ "helm" ∷ "oci" ∷ []))

  unfoldable pub validate_catalog_config : CatalogConfig → Result (Unit {0})
  unfolding validate_common check_type
  validate_catalog_config c = validate_common c >> check_type c

  -- The loop of `ValidateCatalogsConfig`; `seen` has a key for every catalog before.
  check_catalogs : (seen : Dict (Unit {0})) → List CatalogConfig → Result (Unit {0})
  unfolding lookup insert validate_catalog_config
  check_catalogs seen [] = ok tt
  check_catalogs seen (c ∷ cs) =
      let rest = check_catalogs (insert c.id tt seen) cs in
      validate_catalog_config c
      >> (if is_set (lookup c.id seen)
          then err (errorf "catalog %q: duplicate id" (c.id ∷ []))
          else rest)

  unfoldable pub validate_catalogs_config : List CatalogConfig → Result (Unit {0})
  unfolding check_catalogs
  validate_catalogs_config catalogs = check_catalogs [] catalogs
