-- ===== src/Services/Helm/Index.antt =====
-- services/adapters/helm/package_repository.go: the packages of a Helm repository
use onyxia_backend.Common.{
  ℕ, suc, String, Bool, true, false, Option, none, some, List, [], ◌∷◌, lookup, contains, ◌==◌,
  Error, sentinel, err_not_found, errorf, wrapf, Result, ok, err, if◌then◌else◌,
}
use onyxia_backend.Common.Panics.{Outcome, returned, panicked, then_return}
use onyxia_backend.Services.Config.{CatalogConfig}
use onyxia_backend.Services.Versions.{version_filter_from, apply}
use onyxia_backend.Services.Domain.{Package, PackageRef, PackageVersion}
use onyxia_backend.Services.Helm.{
  ChartVersion, Entries, HelmLib, HelmPackageRepository, must_parse_url, zero_url,
}

-- `extractVersions`
unfoldable pub extract_versions : List (Option ChartVersion) → List String
extract_versions [] = []
extract_versions (none ∷ vs) = extract_versions vs
extract_versions (some v ∷ vs) =
    let rest = extract_versions vs in if v.version == "" then rest else v.version ∷ rest

-- `mustVersionFilter(…).apply(…)`; either may panic.
unfoldable pub filtered : CatalogConfig → List String → Option (List String)
unfolding version_filter_from apply
filtered cfg versions = elim (version_filter_from cfg) [ err e ↦ none | ok f ↦ apply f versions ]

-- What a round of the loop over the index does with an entry
pub data Row : Type 0 where
  skipped broken : Row
  listed : Package → Row

-- The outcome of the search for a version in an entry
unfoldable pub has_version : String → List (Option ChartVersion) → Option Bool
has_version version [] = some false
has_version version (none ∷ vs) = none
has_version version (some v ∷ vs) =
    let rest = has_version version vs in if v.version == version then some true else rest

module _ (lib : HelmLib) where
  open lib use {State, Repo}

  -- `loadHelmIndex`
  unfoldable pub load_helm_index :
      HelmPackageRepository lib → (catalog_id : String) → State → Result (Repo × Entries) × State
  unfolding lookup
  load_helm_index h catalog_id s = elim (lookup catalog_id h.repos) [
    | none ↦ (err (errorf "unknown Helm catalog: %s" (catalog_id ∷ [])), s)
    | some cr ↦
        let (downloaded, s') = lib.download_index_file h.cache cr s in
        elim downloaded [
          | err e ↦ (err (wrapf "fetching Helm index: %w" [] e), s')
          | ok u ↦
              let (loaded, s'') = lib.load_index_file h.cache catalog_id s' in
              elim loaded [
                | err e ↦ (err (wrapf "parsing Helm index: %w" [] e), s'')
                | ok idx ↦ (ok (cr, idx), s'')
              ]
        ]
  ]

  unfoldable pub package_of : CatalogConfig → (name : String) → ChartVersion → Package
  unfolding must_parse_url
  package_of cfg name latest = record {
    catalog_id = cfg.id;
    name = name;
    description = latest.description;
    home_url = must_parse_url lib latest.home;
    icon_url = must_parse_url lib latest.icon;
  }

  unfoldable pub row : CatalogConfig → (name : String) → List (Option ChartVersion) → Row
  unfolding package_of
  row cfg name [] = skipped
  row cfg name (none ∷ vs) = if contains cfg.excluded name then skipped else broken
  row cfg name (some latest ∷ vs) =
      if contains cfg.excluded name then skipped else listed (package_of cfg name latest)

  -- The loop of `listHelmPackages`; `ctx_err n` is what `ctx.Err()` gives in the round `n`.
  unfoldable pub list_entries :
      (ctx_err : ℕ → Option Error) → CatalogConfig → ℕ → Entries → Outcome (List Package)
  unfolding row
  list_entries ctx_err cfg n [] = returned (ok [])
  list_entries ctx_err cfg n ((name, versions) ∷ entries) = elim (ctx_err n) [
    | some e ↦ returned (err e)
    | none ↦ elim (row cfg name versions) [
      | skipped ↦ list_entries ctx_err cfg (suc n) entries
      | broken ↦ panicked
      | listed p ↦ then_return (λ ps. ok (p ∷ ps)) (list_entries ctx_err cfg (suc n) entries)
    ]
  ]

  unfoldable pub list_helm_packages :
      HelmPackageRepository lib
      → (ctx_err : ℕ → Option Error) → CatalogConfig
      → State
      → Outcome (List Package) × State
  unfolding load_helm_index list_entries
  list_helm_packages h ctx_err cfg s =
      let (loaded, s') = load_helm_index h cfg.id s in
      (elim loaded [ err e ↦ returned (err e) | ok (cr, idx) ↦ list_entries ctx_err cfg 0 idx ], s')

  chart_not_found : (name catalog_id : String) → Error
  chart_not_found name catalog_id =
      wrapf "%w: chart %q not found in catalog %q" (name ∷ catalog_id ∷ []) (sentinel err_not_found)

  unfoldable pub ref_of :
      CatalogConfig → (name : String) → Option (List (Option ChartVersion)) → Outcome PackageRef
  unfolding package_of filtered extract_versions chart_not_found
  ref_of catalog name none = returned (err (chart_not_found name catalog.id))
  ref_of catalog name (some []) = returned (err (chart_not_found name catalog.id))
  ref_of catalog name (some (none ∷ vs)) = panicked
  ref_of catalog name (some (some latest ∷ vs)) =
      elim (filtered catalog (extract_versions (some latest ∷ vs))) [
        | none ↦ panicked
        | some versions ↦
            returned (ok (record { pkg = package_of catalog name latest; versions = versions }))
      ]

  unfoldable pub get_helm_package :
      HelmPackageRepository lib
      → CatalogConfig
      → (name : String) → State
      → Outcome PackageRef × State
  unfolding load_helm_index lookup ref_of
  get_helm_package h catalog name s =
      let (loaded, s') = load_helm_index h catalog.id s in
      (
        elim loaded [
          | err e ↦ returned (err e)
          | ok (cr, idx) ↦ ref_of catalog name (lookup name idx)
        ],
        s',
      )

  unfoldable pub resolved : (url catalog_id name version : String) → PackageVersion
  resolved url catalog_id name version = record {
    pkg = record {
      catalog_id = catalog_id;
      name = name;
      description = "";
      home_url = zero_url;
      icon_url = zero_url;
    };
    version = version;
    repo_url = url;
  }

  -- The search of `ResolvePackage` in an index
  unfoldable pub resolve_in :
      (catalog_id name version : String)
      → Repo
      → Option (List (Option ChartVersion))
      → Outcome PackageVersion
  unfolding has_version resolved
  resolve_in catalog_id name version cr none =
      returned (err (errorf "chart %q not found in catalog %q" (name ∷ catalog_id ∷ [])))
  resolve_in catalog_id name version cr (some versions) = elim (has_version version versions) [
    | none ↦ panicked
    | some true ↦ returned (ok (resolved (lib.config_url cr) catalog_id name version))
    | some false ↦ returned (
        err (
          errorf "version %q not found for chart %q in catalog %q"
            (version ∷ name ∷ catalog_id ∷ [])))
  ]

  unfoldable pub resolve_helm_package :
      HelmPackageRepository lib
      → (catalog_id name version : String) → State
      → Outcome PackageVersion × State
  unfolding load_helm_index lookup resolve_in
  resolve_helm_package h catalog_id name version s =
      let (loaded, s') = load_helm_index h catalog_id s in
      (
        elim loaded [
          | err e ↦ returned (err e)
          | ok (cr, idx) ↦ resolve_in catalog_id name version cr (lookup name idx)
        ],
        s',
      )
