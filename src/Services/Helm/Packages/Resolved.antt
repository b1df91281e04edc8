-- ===== src/Services/Helm/Packages/Resolved.antt =====
-- Which versions of a package are resolved.
use onyxia_backend.Common.{
  ℕ, zero, suc, String, ◌≡◌, ◌≢◌, inl, inr, refl, ◌∙◌, true, Option, none, some, List, [], ◌∷◌,
  lookup, ok, contains, take, All, arith, Bool-cases, Option-cases, Result-cases,
}
use onyxia_backend.Common.Int.{ℤ}
use onyxia_backend.Common.Panics.{returned}
use onyxia_backend.Services.Config.{CatalogConfig, Regexps, validate_catalogs_config}
use onyxia_backend.Services.Config.Distinct.{validate_catalogs_config_iff}
use onyxia_backend.Services.Config.Valid.{HasMode}
use onyxia_backend.Services.Versions.Kept.{offered, firsts}
use onyxia_backend.Services.Domain.{PackageRef, PackageVersion}
use onyxia_backend.Services.Helm.{
  ChartVersion, Entries, HelmLib, HelmPackageRepository, is_helm, is_oci, is_helm-is_oci,
  new_package_repository,
}
use onyxia_backend.Services.Helm.Index.{
  extract_versions, has_version, load_helm_index, ref_of, get_helm_package, resolve_in, resolved,
  resolve_helm_package,
}
use onyxia_backend.Services.Helm.Oci.{
  bare_package, packages_of, find_oci, get_oci_package, resolve_oci_package,
}
use onyxia_backend.Services.Helm.Sound.{IsKnown, new_package_repository-IsSound}
use onyxia_backend.Services.Helm.Packages.{get_package, resolve_package}
use onyxia_backend.Services.Helm.Packages.NoPanic.{
  LoadsClean, filtered_lem, load_helm_index-IsClean, lookup-IsClean,
}

contains-firsts :
    (earlier vs : List String) (v : String)
    → contains (firsts earlier vs) v ≡ true
    → contains vs v ≡ true
contains-firsts earlier [] v h = h
contains-firsts earlier (w ∷ vs) v h = ground (arith, contains-firsts (w ∷ earlier) vs v)

contains-take :
    (n : ℕ) (vs : List String) (v : String) → contains (take n vs) v ≡ true → contains vs v ≡ true
contains-take zero vs v h = ground arith
contains-take (suc n) [] v h = h
contains-take (suc n) (w ∷ vs) v h = ground (arith, contains-take n vs v)

-- What is offered was published.
contains-offered :
    {mode : String} {max : Option ℤ} (m : HasMode mode max) (vs : List String) (v : String)
    → contains (offered m vs) v ≡ true
    → contains vs v ≡ true
contains-offered (HasMode.all_versions e g) vs v h = h
contains-offered (HasMode.latest_only e g) vs v h = contains-take 1 vs v h
contains-offered (HasMode.skip_patches e g) vs v h = contains-firsts [] vs v h
contains-offered (HasMode.max_number n e g p) vs v h = contains-take n vs v h

extracted-has_version :
    (vs : List (Option ChartVersion)) (v : String)
    → All (λ w. w ≢ none) vs
    → contains (extract_versions vs) v ≡ true
    → has_version v vs ≡ some true
unfolding extract_versions has_version
extracted-has_version [] v clean h = ground arith
extracted-has_version (none ∷ vs) v clean h = absurd (clean.0 refl)
extracted-has_version (some w ∷ vs) v clean h = ground (arith, extracted-has_version vs v clean.1)

module _ (lib : HelmLib) where
  open lib use {State, Repo}

  -- The version of the package in the catalog
  pub record IsVersion (i name v : String) (pv : PackageVersion) : Type 0 where
    pub catalog : pv.pkg.catalog_id ≡ i
    pub package_name : pv.pkg.name ≡ name
    pub version : pv.version ≡ v

  ref_of_lem :
      (c : CatalogConfig) (m : HasMode c.multiple_services_mode c.max_number_of_versions)
      (name : String) (found : Option (List (Option ChartVersion))) (ref : PackageRef)
      → ref_of lib c name found ≡ returned (ok ref)
      → (vs : List (Option ChartVersion)) × (found ≡ some vs)
        × (ref.versions ≡ offered m (extract_versions vs))
  unfolding ref_of
  ref_of_lem c m name none ref h = ground arith
  ref_of_lem c m name (some []) ref h = ground arith
  ref_of_lem c m name (some (none ∷ vs)) ref h = ground arith
  ref_of_lem c m name (some (some v ∷ vs)) ref h =
      (some v ∷ vs, refl, ground (arith, filtered_lem c m (extract_versions (some v ∷ vs))))

  module _ (h : HelmPackageRepository lib) where
    open h use {catalogs}

    resolve_index_lem :
        (i name v : String) (s : State) (cr : Repo) (idx : Entries)
        (vs : List (Option ChartVersion))
        → (load_helm_index lib h i s).0 ≡ ok (cr, idx)
        → lookup name idx ≡ some vs
        → has_version v vs ≡ some true
        → (resolve_helm_package lib h i name v s).0
          ≡ returned (ok (resolved lib (lib.config_url cr) i name v))
    unfolding resolve_helm_package resolve_in
    resolve_index_lem i name v s cr idx vs l f e = ground arith

    -- The version that is offered of a package of a Helm catalog is in the index.
    offered_index :
        (c : CatalogConfig) (m : HasMode c.multiple_services_mode c.max_number_of_versions)
        (name v : String) (s : State) (ref : PackageRef)
        → LoadsClean lib
        → (get_helm_package lib h c name s).0 ≡ returned (ok ref)
        → contains ref.versions v ≡ true
        → (cr : Repo) × (idx : Entries) × (vs : List (Option ChartVersion)) × ((load_helm_index lib
              h c.id s).0
            ≡ ok (cr, idx))
          × (lookup name idx ≡ some vs)
          × (has_version v vs ≡ some true)
    unfolding get_helm_package
    offered_index c m name v s ref clean e o =
        elim (Result-cases (load_helm_index lib h c.id s).0) [
          | inr (x, l) ↦ ground arith
          | inl ((cr, idx), l) ↦
              let (vs, found, kept) = ref_of_lem c m name (lookup name idx) ref (ground arith) in
              let inside : contains (offered m (extract_versions vs)) v ≡ true = rw (← kept) o in
              (
                cr,
                idx,
                vs,
                l,
                found,
                extracted-has_version vs v
                    (lookup-IsClean idx name vs
                      (load_helm_index-IsClean lib h clean c.id s cr idx l) found)
                    (contains-offered m (extract_versions vs) v inside),
              )
        ]

    offered_helm :
        (i name v : String) (c : CatalogConfig) (s s' : State) (ref : PackageRef)
        → IsKnown lib h i c
        → LoadsClean lib
        → (get_helm_package lib h c name s).0 ≡ returned (ok ref)
        → contains ref.versions v ≡ true
        → (load_helm_index lib h i s').0 ≡ (load_helm_index lib h i s).0
        → (pv : PackageVersion) × ((resolve_helm_package lib h i name v s').0 ≡ returned (ok pv))
          × IsVersion i name v pv
    unfolding resolved
    offered_helm i name v c s s' ref known clean e o steady =
        let (cr, idx, vs, l, found, has) = offered_index c known.mode name v s ref clean e o in
        let own : (load_helm_index lib h i s).0 ≡ ok (cr, idx) = rw (← known.identified) l in
        (
          resolved lib (lib.config_url cr) i name v,
          resolve_index_lem i name v s' cr idx vs (steady ∙ own) found has,
          record { catalog = refl; package_name = refl; version = refl },
        )

    offered_oci :
        (i name v : String) (c : CatalogConfig) (s : State) (ref : PackageRef)
        → IsKnown lib h i c
        → (get_oci_package lib c name s).0 ≡ ok ref
        → contains ref.versions v ≡ true
        → (pv : PackageVersion) × (resolve_oci_package c name v ≡ ok pv) × IsVersion i name v pv
    unfolding get_oci_package resolve_oci_package
    offered_oci i name v c s ref known e o = elim (Option-cases (find_oci name (packages_of c))) [
      | inl f ↦ ground arith
      | inr (p, f) ↦ (
        record { pkg = bare_package c.id name; version = v; repo_url = c.location },
        ground arith,
        record { catalog = known.identified; package_name = refl; version = refl },
      )
    ]

    -- A version that is offered of a package can be resolved. If the configuration of the catalogs
    -- passed the validation, the repository is made from it, and its indexes hold no nil pointer,
    -- then every version in the answer for a package is resolved to that version of that package in
    -- that catalog, at any later moment at which the catalog has the same index.
    pub offered_resolves :
        (re : Regexps) (cs : List CatalogConfig) (cache_dir : String)
        → validate_catalogs_config re cs ≡ ok tt
        → new_package_repository lib cs cache_dir ≡ ok h
        → LoadsClean lib
        → (i name v : String) (s s' : State) (ref : PackageRef)
        → (get_package lib h i name s).0 ≡ returned (ok ref)
        → contains ref.versions v ≡ true
        → (load_helm_index lib h i s').0 ≡ (load_helm_index lib h i s).0
        → (pv : PackageVersion) × ((resolve_package lib h i name v s').0 ≡ returned (ok pv))
          × IsVersion i name v pv
    unfolding get_package resolve_package
    offered_resolves re cs cache_dir valid made clean i name v s s' ref e o steady =
        let all_valid = ((validate_catalogs_config_iff re cs).0 valid).0 in
        let sound = new_package_repository-IsSound lib re cs cache_dir h all_valid made in
        elim (Option-cases (lookup i h.catalogs)) [
          | inl f ↦ ground arith
          | inr (c, f) ↦
              let known = sound i c f in
              elim (Bool-cases (is_helm c)) [
                | inl t ↦
                    let (pv, r, ver) =
                      offered_helm i name v c s s' ref known clean (ground arith) o steady in
                    (pv, ground (arith, is_helm-is_oci c t), ver)
                | inr t ↦ elim (Bool-cases (is_oci c)) [
                  | inl q ↦
                      let (pv, r, ver) = offered_oci i name v c s ref known (ground arith) o in
                      (pv, ground arith, ver)
                  | inr q ↦ ground arith
                ]
              ]
        ]
