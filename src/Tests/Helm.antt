-- ===== src/Tests/Helm.antt =====
-- A Helm repository with one package, and installations from it.
use onyxia_backend.Common.{
  ℕ, suc, String, ◌≡◌, ◌≢◌, refl, ap, ◌∙◌, true, false, Option, none, some, List, [], ◌∷◌, map,
  lookup, contains, Error, ok, All, arith,
}
use onyxia_backend.Common.Panics.{returned, panicked}
use onyxia_backend.Common.Text.{trim_space}
use onyxia_backend.UserContext.{Context, user}
use onyxia_backend.Services.Config.{CatalogConfig, OciPackage, validate_catalogs_config}
use onyxia_backend.Services.Domain.{Package, PackageRef, PackageVersion}
use onyxia_backend.Services.Catalogs.{find_catalog, catalog_of}
use onyxia_backend.Services.Controller.{
  ApiCatalog, catalogs_ok, api_catalog, get_my_catalogs, package_not_found,
  package_internal_server_error, get_my_package,
}
use onyxia_backend.Services.Helm.{
  ChartVersion, Entries, chart_v2, HelmLib, HelmPackageRepository, is_helm, is_oci, zero_url,
  must_parse_url, new_package_repository,
}
use onyxia_backend.Services.Helm.Index.{load_helm_index, has_version}
use onyxia_backend.Services.Helm.Oci.{bare_package, packages_of, find_oci}
use onyxia_backend.Services.Helm.Packages.{
  list_packages, get_package, resolve_package, package_repository,
}
use onyxia_backend.Services.Helm.Packages.NoPanic.{LoadsClean, never_panics}
use onyxia_backend.Services.Helm.Packages.Listed.{HasNoExcluded, no_excluded_listed}
use onyxia_backend.Services.Helm.Packages.Missing.{missing_package}
use onyxia_backend.Services.Helm.Packages.Resolved.{IsVersion, offered_resolves}
use onyxia_backend.Services.Release.{Installer}
use onyxia_backend.Services.Install
use onyxia_backend.Services.Install.{InstallRequest, InstallRes, install_accepted, install_service}
use onyxia_backend.Services.System.{services_ports}
use onyxia_backend.Services.System.Version.{IsUnpublished, no_version_refused}
use onyxia_backend.Tests.Services.{whole, latest, body, params, alice, unmarshal}
use onyxia_backend.Tests.Secrets.{client}

abbrev chart : String → ChartVersion
chart v = record { version = v; description = "a chart"; home = ""; icon = "" }

abbrev index : Entries
index =
    ("jupyter", some (chart "2.1.3") ∷ some (chart "2.1.2") ∷ some (chart "2.0.0") ∷ [])
    ∷ ("old", some (chart "0.1.0") ∷ [])
    ∷ []

-- It counts the downloads.
abbrev lib : HelmLib
lib = record {
  State = ℕ;
  Repo = String;
  default_cache = "/cache";
  new_chart_repository = λ e. ok (e.url);
  config_url = λ r. r;
  download_index_file = λ c r s. (ok tt, suc s);
  load_index_file = λ c i s. (ok index, s);
  Getter = Unit;
  getter_by_scheme = λ s. ok tt;
  get = λ g u o s. (ok u, s);
  load_archive = λ b. ok (chart_v2 none);
  parse_url = λ s. ok zero_url;
}

lib-LoadsClean : LoadsClean lib
lib-LoadsClean cache i s idx h = let same : index ≡ idx = ground arith in rw (← same) (ground arith)

abbrev ide : CatalogConfig
ide = record latest { excluded = "old" ∷ [] }

abbrev oci : CatalogConfig
oci = record latest {
  catalog_type = "oci";
  id = "oci";
  packages = some (record { name = "rstudio"; versions = "1.0.0" ∷ [] } ∷ []);
}

abbrev configured : List CatalogConfig
configured = ide ∷ oci ∷ []

abbrev repository : HelmPackageRepository lib
repository = record {
  repos = ("ide", "https://h") ∷ [];
  catalogs = ("ide", ide) ∷ ("oci", oci) ∷ [];
  cache = "/cache";
}

validated : validate_catalogs_config whole configured ≡ ok tt
unfolding validate_catalogs_config trim_space
validated = refl

made : new_package_repository lib configured "" ≡ ok repository
unfolding new_package_repository
made = refl

never_panics_example :
    ((list_packages lib repository (λ n. none) "ide" 0).0 ≢ panicked)
    × ((get_package lib repository "ide" "jupyter" 0).0 ≢ panicked)
    × ((resolve_package lib repository "ide" "jupyter" "2.1.3" 0).0 ≢ panicked)
never_panics_example =
    never_panics lib whole configured "" repository validated made lib-LoadsClean (λ n. none) "ide"
      "jupyter" "2.1.3" 0

abbrev jupyter : Package
jupyter = record {
  catalog_id = "ide";
  name = "jupyter";
  description = "a chart";
  home_url = zero_url;
  icon_url = zero_url;
}

abbrev jupyter_ref : PackageRef
jupyter_ref = record { pkg = jupyter; versions = "2.1.3" ∷ "2.0.0" ∷ [] }

offered_versions : (get_package lib repository "ide" "jupyter" 0).0 ≡ returned (ok jupyter_ref)
unfolding get_package
offered_versions = refl

steady : (load_helm_index lib repository "ide" 7).0 ≡ (load_helm_index lib repository "ide" 0).0
unfolding load_helm_index
steady = refl

offered_resolves_example :
    (pv : PackageVersion) × ((resolve_package lib repository "ide" "jupyter" "2.0.0" 7).0
      ≡ returned (ok pv))
    × IsVersion lib "ide" "jupyter" "2.0.0" pv
offered_resolves_example =
    offered_resolves lib repository whole configured "" validated made lib-LoadsClean "ide"
      "jupyter" "2.0.0" 0 7 jupyter_ref offered_versions refl steady

abbrev nobody : Context
nobody = []

abbrev answered : List ApiCatalog
answered =
    api_catalog (catalog_of ide (jupyter ∷ []))
    ∷ api_catalog (catalog_of oci (bare_package "oci" "rstudio" ∷ []))
    ∷ []

all_shown :
    (get_my_catalogs whole (package_repository lib repository (λ n. none)) configured nobody 0).0.0
    ≡ catalogs_ok answered
unfolding get_my_catalogs list_packages must_parse_url api_catalog catalog_of
all_shown = refl

no_excluded_listed_example :
    All
      (λ a.
        (c : CatalogConfig)
        → lookup a.id repository.catalogs ≡ some c
        → HasNoExcluded c (map (λ p. p.name) a.packages))
      answered
no_excluded_listed_example =
    no_excluded_listed lib repository whole configured (λ n. none) nobody 0 answered all_shown

known_oci : lookup "oci" repository.catalogs ≡ some oci
unfolding lookup
known_oci = refl

configured-oci : find_catalog configured "oci" ≡ ok oci
unfolding find_catalog
configured-oci = refl

missing_package_example :
    ((cr : String) (idx : Entries)
      → is_helm oci ≡ true
      → (load_helm_index lib repository "oci" 0).0 ≡ ok (cr, idx)
      → lookup "none" idx ≡ none
      → (e : Error) × ((get_my_package whole
            (package_repository lib repository (λ n. none))
            configured
            "oci"
            "none"
            0).0
          ≡ (package_not_found e, none)))
    × (is_helm oci ≡ false
        → is_oci oci ≡ true
        → find_oci "none" (packages_of oci) ≡ none
        → (e : Error) × ((get_my_package whole
              (package_repository lib repository (λ n. none))
              configured
              "oci"
              "none"
              0).0
            ≡ (package_internal_server_error e, some e)))
missing_package_example =
    missing_package lib repository whole (λ n. none) configured "oci" "none" oci oci 0 known_oci
      configured-oci

abbrev pub installer : Installer
installer = record {
  State = ℕ;
  Chart = Unit;
  namespace = "default";
  locate_chart = λ r v s. (ok r, s);
  load = λ p s. (ok tt, s);
  merge_values = ok [];
}

abbrev ports : Install.Ports
ports = services_ports (package_repository lib repository (λ n. none)) client installer

abbrev idle : ports.State
idle = record { packages = 0; secrets = none; releases = 0; jobs = [] }

abbrev versions : List (Option ChartVersion)
versions = some (chart "2.1.3") ∷ some (chart "2.1.2") ∷ some (chart "2.0.0") ∷ []

not_in_index :
    (s : ℕ) (cr : String) (idx : Entries) (vs : List (Option ChartVersion))
    → (load_helm_index lib repository "ide" s).0 ≡ ok (cr, idx)
    → lookup "jupyter" idx ≡ some vs
    → has_version "latest" vs ≡ some false
unfolding load_helm_index lookup has_version
not_in_index s cr idx vs l f =
    let read : index ≡ idx = ground arith in
    let found : lookup "jupyter" index ≡ some vs =
      ap (λ (x : Entries). lookup "jupyter" x) read ∙ f in
    let same : versions ≡ vs = ground arith in rw (← same) refl

not_in_catalog :
    (c : CatalogConfig) (p : OciPackage)
    → lookup "ide" repository.catalogs ≡ some c
    → is_oci c ≡ true
    → find_oci "jupyter" (packages_of c) ≡ some p
    → contains p.versions "latest" ≡ false
unfolding lookup
not_in_catalog c p f t g =
    let same : ide ≡ c = ground arith in
    let never : is_oci ide ≡ true = ap (λ (x : CatalogConfig). is_oci x) same ∙ t in cc

no_latest : IsUnpublished lib repository "ide" "jupyter" "latest"
no_latest = record {
  in_index = λ s cr idx vs l f. not_in_index s cr idx vs l f;
  in_catalog = λ c p f t g. not_in_catalog c p f t g;
}

no_version_refused_example :
    ((install_service unmarshal
        (Install.start ports)
        (user (some alice) ∷ [])
        (some body)
        params
        idle).0.0
      ≢ install_accepted)
    × ((install_service unmarshal
          (Install.start ports)
          (user (some alice) ∷ [])
          (some body)
          params
          idle).1.secrets
        ≡ none)
    × ((install_service unmarshal
          (Install.start ports)
          (user (some alice) ∷ [])
          (some body)
          params
          idle).1.jobs
        ≡ [])
no_version_refused_example =
    no_version_refused lib repository client installer (λ n. none) unmarshal
      (user (some alice) ∷ []) body params idle refl no_latest
