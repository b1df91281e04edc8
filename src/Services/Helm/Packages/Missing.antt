-- ===== src/Services/Helm/Packages/Missing.antt =====
-- The answers of the controller for a package that a catalog does not have.
use onyxia_backend.Common.{
  ℕ, String, ◌≡◌, true, false, Option, none, some, List, [], ◌∷◌, lookup, Error, sentinel,
  err_not_found, errorf, wrapf, ok, arith,
}
use onyxia_backend.Services.Config.{CatalogConfig, Regexps}
use onyxia_backend.Services.Catalogs.{find_catalog, get_package}
use onyxia_backend.Services.Controller.{
  package_not_found, package_internal_server_error, get_my_package,
}
use onyxia_backend.Services.Helm.{Entries, HelmLib, HelmPackageRepository, is_helm, is_oci}
use onyxia_backend.Services.Helm.Index.{load_helm_index, ref_of, get_helm_package}
use onyxia_backend.Services.Helm.Oci.{packages_of, find_oci, get_oci_package}
use onyxia_backend.Services.Helm.Packages
use onyxia_backend.Services.Helm.Packages.{package_repository}

module _ (lib : HelmLib) (h : HelmPackageRepository lib) (re : Regexps) (ctx_err : ℕ → Option Error)
    (cfgs : List CatalogConfig) (i name : String) (c d : CatalogConfig) (s : lib.State)
    (known : lookup i h.catalogs ≡ some c) (configured : find_catalog cfgs i ≡ ok d) where
  abbrev asked : Error → Error
  asked e = wrapf "catalog %q package %q: %w" (i ∷ name ∷ []) e

  -- For a package that is not in the index of a Helm catalog, the controller answers that it is not
  -- found, and for one that is not in an OCI catalog, that there is an internal error, which it
  -- returns along.
  pub missing_package :
      ((cr : lib.Repo) (idx : Entries)
        → is_helm c ≡ true
        → (load_helm_index lib h c.id s).0 ≡ ok (cr, idx)
        → lookup name idx ≡ none
        → (e : Error) × ((get_my_package re (package_repository lib h ctx_err) cfgs i name s).0
            ≡ (package_not_found e, none)))
      × (is_helm c ≡ false
          → is_oci c ≡ true
          → find_oci name (packages_of c) ≡ none
          → (e : Error) × ((get_my_package re (package_repository lib h ctx_err) cfgs i name s).0
              ≡ (package_internal_server_error e, some e)))
  unfolding get_my_package get_package Packages.get_package get_helm_package get_oci_package ref_of
  missing_package = (
    λ cr idx t l m. (
      asked (
          wrapf "%w: chart %q not found in catalog %q" (name ∷ c.id ∷ []) (sentinel err_not_found)),
      ground arith,
    ),
    λ t o m.
        (asked (errorf "package %q not found in OCI catalog %q" (name ∷ c.id ∷ [])), ground arith),
  )
