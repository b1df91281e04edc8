-- ===== src/Services/Helm/Oci.antt =====
-- services/adapters/helm/package_repository.go: the packages of an OCI catalog
use onyxia_backend.Common.{
  String, Option, none, some, List, [], ◌∷◌, contains, ◌==◌, sentinel, err_not_found, errorf, wrapf,
  Result, ok, err, if◌then◌else◌,
}
use onyxia_backend.Common.Text.{trim_suffix, trim_prefix, ◌++◌}
use onyxia_backend.Services.Config.{CatalogConfig, OciPackage}
use onyxia_backend.Services.Domain.{Package, PackageRef, PackageVersion}
use onyxia_backend.Services.Helm.{
  HelmLib, Metadata, Archive, chart_v2, other_chart, GetOptions, deref, zero_url, must_parse_url,
}

-- A range over a nil slice has no rounds.
abbrev pub packages_of : CatalogConfig → List OciPackage
packages_of cfg = elim cfg.packages [ none ↦ [] | some ps ↦ ps ]

abbrev pub bare_package : (catalog_id name : String) → Package
bare_package catalog_id name = record {
  catalog_id = catalog_id;
  name = name;
  description = "";
  home_url = zero_url;
  icon_url = zero_url;
}

-- The loop of `listOCIPackages`
unfoldable pub list_oci : CatalogConfig → List OciPackage → List Package
list_oci cfg [] = []
list_oci cfg (p ∷ ps) =
    let rest = list_oci cfg ps in
    if contains cfg.excluded p.name then rest else bare_package cfg.id p.name ∷ rest

unfoldable pub find_oci : String → List OciPackage → Option OciPackage
find_oci name [] = none
find_oci name (p ∷ ps) = if p.name == name then some p else find_oci name ps

-- `resolveOCIPackage`; only the first package of the name counts.
unfoldable pub resolve_oci_package : CatalogConfig → (name version : String) → Result PackageVersion
unfolding find_oci
resolve_oci_package cfg name version = elim (find_oci name (packages_of cfg)) [
  | none ↦ err (
      wrapf "%w: package %q not found in OCI catalog %q" (name ∷ cfg.id ∷ [])
        (sentinel err_not_found))
  | some p ↦
      if contains p.versions version
      then ok
          (record { pkg = bare_package cfg.id name; version = version; repo_url = cfg.location })
      else err (
          wrapf "%w: version %q not found for package %q in OCI catalog %q"
            (version ∷ name ∷ cfg.id ∷ []) (sentinel err_not_found))
]

module _ (lib : HelmLib) where
  open lib use {State}

  loaded_chart : Result Archive → Result (Option Metadata)
  loaded_chart (err e) = err e
  loaded_chart (ok (chart_v2 m)) = ok m
  loaded_chart (ok (other_chart t)) = err (errorf "unexpected chart type %T" (t ∷ []))

  -- `pullChart`, as far as the metadata of the chart
  unfoldable pub pull_chart :
      (chart_url : String) → GetOptions → State → Result (Option Metadata) × State
  unfolding loaded_chart
  pull_chart chart_url options s = elim (lib.parse_url chart_url) [
    | err e ↦ (err (wrapf "invalid chart URL: %w" [] e), s)
    | ok u ↦ elim (lib.getter_by_scheme u.scheme) [
      | err e ↦ (err (wrapf "no getter for scheme %q: %w" (u.scheme ∷ []) e), s)
      | ok g ↦
          let (got, s') = lib.get g chart_url options s in
          elim got [
            | err e ↦ (err (wrapf "downloading chart: %w" [] e), s')
            | ok buf ↦ (loaded_chart (lib.load_archive buf), s')
          ]
    ]
  ]

  -- What the metadata of a chart change in the result
  described : Result (Option Metadata) → Package → Package
  unfolding must_parse_url
  described (err e) p = p
  described (ok none) p = p
  described (ok (some m)) p =
      let p' = record p {
        description = m.description;
        home_url = must_parse_url lib m.home;
        icon_url = must_parse_url lib m.icon;
      } in
      if m.description == "" then p else p'

  get_options : CatalogConfig → (ref version : String) → GetOptions
  get_options catalog ref version = record {
    url = ref;
    tag_name = version;
    insecure_skip_verify_tls = catalog.skip_tls_verify;
    ca_file = deref catalog.ca_file;
    username = deref catalog.username;
    password = deref catalog.password;
  }

  -- The loop of `getOCIPackage` over the versions
  unfoldable pub describe :
      CatalogConfig → (ref : String) → List String → Package → State → Package × State
  unfolding pull_chart described get_options
  describe catalog ref [] p s = (p, s)
  describe catalog ref (version ∷ versions) p s =
      let (pulled, s') = pull_chart ref (get_options catalog ref version) s in
      describe catalog ref versions (described pulled p) s'

  unfoldable pub get_oci_package :
      CatalogConfig → (name : String) → State → Result PackageRef × State
  unfolding find_oci describe trim_suffix trim_prefix
  get_oci_package catalog name s = elim (find_oci name (packages_of catalog)) [
    | none ↦ (err (errorf "package %q not found in OCI catalog %q" (name ∷ catalog.id ∷ [])), s)
    | some p ↦
        let ref = trim_suffix b'/' catalog.location ++ "/" ++ trim_prefix b'/' name in
        let (pkg, s') = describe catalog ref p.versions (bare_package catalog.id name) s in
        (ok (record { pkg = pkg; versions = p.versions }), s')
  ]
