-- ===== src/Services/Helm/Packages.antt =====
-- The methods of `HelmPackageRepository` in services/adapters/helm/package_repository.go, and the
-- repository of packages that they are for the use cases
pub mod NoPanic
pub mod Listed
pub mod Resolved
pub mod Missing
use onyxia_backend.Common.{
  ℕ, String, ◌≡◌, Bool, true, false, Option, none, some, List, [], ◌∷◌, lookup, Error, sentinel,
  err_not_found, errorf, wrapf, Result, ok, err, if◌then◌else◌,
}
use onyxia_backend.Common.Panics.{Outcome, returned, panicked}
use onyxia_backend.Services.Config.{CatalogConfig}
use onyxia_backend.Services.Domain.{Package, PackageRef, PackageVersion}
use onyxia_backend.Services.Catalogs.{PackageRepository}
use onyxia_backend.Services.Helm.{HelmLib, HelmPackageRepository, is_oci, is_helm}
use onyxia_backend.Services.Helm.Index.{list_helm_packages, get_helm_package, resolve_helm_package}
use onyxia_backend.Services.Helm.Oci.{packages_of, list_oci, get_oci_package, resolve_oci_package}

abbrev unsupported : CatalogConfig → Error
unsupported cfg = errorf "unsupported catalog type: %v" (cfg.catalog_type ∷ [])

module _ (lib : HelmLib) (h : HelmPackageRepository lib) where
  open lib use {State}

  unfoldable pub list_packages :
      (ctx_err : ℕ → Option Error) → (catalog_id : String) → State → Outcome (List Package) × State
  unfolding lookup list_helm_packages list_oci
  list_packages ctx_err catalog_id s = elim (lookup catalog_id h.catalogs) [
    | none ↦ (returned (err (errorf "catalog %q not found" (catalog_id ∷ []))), s)
    | some cfg ↦
        if is_helm cfg
        then list_helm_packages lib h ctx_err cfg s
        else if is_oci cfg
        then (returned (ok (list_oci cfg (packages_of cfg))), s)
        else (returned (err (unsupported cfg)), s)
  ]

  -- A result of the OCI branch, which does not panic
  abbrev as_returned {ℓ} : {A : Type ℓ} → Result A × State → Outcome A × State
  as_returned (r, s) = (returned r, s)

  unfoldable pub get_package : (catalog_id name : String) → State → Outcome PackageRef × State
  unfolding lookup get_helm_package get_oci_package
  get_package catalog_id name s = elim (lookup catalog_id h.catalogs) [
    | none ↦ (
      returned (err (wrapf "%w: catalog %q not found" (catalog_id ∷ []) (sentinel err_not_found))),
      s,
    )
    | some cfg ↦
        if is_helm cfg
        then get_helm_package lib h cfg name s
        else if is_oci cfg
        then as_returned (get_oci_package lib cfg name s)
        else (returned (err (unsupported cfg)), s)
  ]

  unfoldable pub resolve_package :
      (catalog_id name version : String) → State → Outcome PackageVersion × State
  unfolding lookup resolve_helm_package resolve_oci_package
  resolve_package catalog_id name version s = elim (lookup catalog_id h.catalogs) [
    | none ↦ (returned (err (errorf "catalog %q not found" (catalog_id ∷ []))), s)
    | some cfg ↦
        if is_oci cfg
        then (returned (resolve_oci_package cfg name version), s)
        else resolve_helm_package lib h catalog_id name version s
  ]

-- The port of the use cases has no outcome for a panic, which ends the request without an answer;
-- it stands as an error here.
abbrev pub recovered {ℓ} : {A : Type ℓ} → Outcome A → Result A
recovered (returned r) = r
recovered panicked = err (errorf "panic" [])

abbrev pub some_of {ℓ} : {A : Type ℓ} → Result A → Result (Option A)
some_of (ok a) = ok (some a)
some_of (err e) = err e

-- The repository that the use cases are given. `get_package` never returns a nil package without
-- an error, and schemas are not implemented.
abbrev pub package_repository :
    (lib : HelmLib) → HelmPackageRepository lib → (ctx_err : ℕ → Option Error) → PackageRepository
package_repository lib h ctx_err = record {
  State = lib.State;
  list_packages = λ i s. let r = list_packages lib h ctx_err i s in (recovered r.0, r.1);
  get_package = λ i n s. let r = get_package lib h i n s in (some_of (recovered r.0), r.1);
  get_package_schema = λ i n v s. (err (errorf "GetPackageSchema not implemented yet" []), s);
  resolve_package = λ i n v s. let r = resolve_package lib h i n v s in (recovered r.0, r.1);
}
