-- ===== src/Services/Helm.antt =====
-- services/adapters/helm/package_repository.go: the repository of packages, and its construction
pub mod Index
pub mod Oci
pub mod Packages
pub mod Sound
use onyxia_backend.Common.{
  String, ◌≡◌, Bool, true, false, Option, none, some, List, [], ◌∷◌, Dict, lookup, insert, ◌==◌,
  wrapf, Result, ok, err, if◌then◌else◌, refl, eq_iff,
}
use onyxia_backend.Common.Text.{trim_space}
use onyxia_backend.Dpop.Request.{Url}
use onyxia_backend.Services.Config.{CatalogConfig}
use onyxia_backend.Services.Versions.{version_filter_from}

-- What the code reads of a version in an index file
pub record ChartVersion : Type 0 where
  pub version : String
  pub description : String
  pub home : String
  pub icon : String

-- `IndexFile.Entries`, in the order of a `range` loop; a pointer in it may be nil.
abbrev pub Entries : Type 0
Entries = Dict (List (Option ChartVersion))

-- `repo.Entry`
pub record Entry : Type 0 where
  pub name : String
  pub url : String
  pub username : String
  pub password : String
  pub insecure_skip_tls_verify : Bool
  pub ca_file : String

pub record Metadata : Type 0 where
  pub description : String
  pub home : String
  pub icon : String

-- What `loader.LoadArchive` gives: a chart of the version 2, whose metadata may be nil, or another
pub data Archive : Type 0 where
  chart_v2 : Option Metadata → Archive
  other_chart : String → Archive

-- The options of `Getter.Get`
pub record GetOptions : Type 0 where
  pub url : String
  pub tag_name : String
  pub insecure_skip_verify_tls : Bool
  pub ca_file : String
  pub username : String
  pub password : String

-- What the code takes from Helm and net/url. A state stands for the network and the cache of
-- indexes; `load_index_file` reads the file of a catalog in a cache directory.
pub record HelmLib : Type 1 where
  pub State : Type 0
  pub Repo : Type 0
  pub default_cache : String
  pub new_chart_repository : Entry → Result Repo
  pub config_url : Repo → String
  pub download_index_file : (cache : String) → Repo → State → Result (Unit {0}) × State
  pub load_index_file : (cache catalog_id : String) → State → Result Entries × State
  pub Getter : Type 0
  pub getter_by_scheme : String → Result Getter
  pub get : Getter → (chart_url : String) → GetOptions → State → Result String × State
  pub load_archive : String → Result Archive
  pub parse_url : String → Result Url

abbrev pub deref : Option String → String
deref none = ""
deref (some s) = s

abbrev pub zero_url : Url
zero_url = record { scheme = ""; host = ""; path = ""; raw_query = ""; fragment = "" }

abbrev pub is_oci : CatalogConfig → Bool
is_oci cfg = cfg.catalog_type == "oci"

abbrev pub is_helm : CatalogConfig → Bool
is_helm cfg = cfg.catalog_type == "helm"

pub is_helm-is_oci : (cfg : CatalogConfig) → is_helm cfg ≡ true → is_oci cfg ≡ false
is_helm-is_oci cfg h = let e : cfg.catalog_type ≡ "helm" = (eq_iff _ _).0 h in rw e refl

module _ (lib : HelmLib) where
  open lib use {Repo}

  -- `MustParseURL`
  unfoldable pub must_parse_url : String → Url
  unfolding trim_space
  must_parse_url s = elim (lib.parse_url (trim_space s)) [ ok u ↦ u | err e ↦ zero_url ]

  pub record HelmPackageRepository : Type 0 where
    pub repos : Dict Repo
    pub catalogs : Dict CatalogConfig
    pub cache : String

  pub entry_of : CatalogConfig → Entry
  entry_of cfg = record {
    name = cfg.id;
    url = cfg.location;
    username = deref cfg.username;
    password = deref cfg.password;
    insecure_skip_tls_verify = cfg.skip_tls_verify;
    ca_file = deref cfg.ca_file;
  }

  -- One round of the loop of `NewPackageRepository`
  unfoldable pub add_catalog : CatalogConfig → HelmPackageRepository → Result HelmPackageRepository
  unfolding insert version_filter_from entry_of
  add_catalog cfg h =
      let h' = record h { catalogs = insert cfg.id cfg h.catalogs } in
      if is_helm cfg
      then (elim (version_filter_from cfg) [
        | err e ↦ err e
        | ok f ↦ elim (lib.new_chart_repository (entry_of cfg)) [
          | err e ↦ err (wrapf "failed to create repo %q: %w" (cfg.id ∷ []) e)
          | ok cr ↦ ok (record h' { repos = insert cfg.id cr h.repos })
        ]
      ])
      else ok h'

  unfoldable pub add_catalogs :
      List CatalogConfig → HelmPackageRepository → Result HelmPackageRepository
  unfolding add_catalog
  add_catalogs [] h = ok h
  add_catalogs (cfg ∷ cfgs) h = elim (add_catalog cfg h) [
    | err e ↦ err e
    | ok h' ↦ add_catalogs cfgs h'
  ]

  unfoldable pub new_package_repository :
      List CatalogConfig → (cache_dir : String) → Result HelmPackageRepository
  unfolding add_catalogs
  new_package_repository catalogs cache_dir =
      let cache = if cache_dir == "" then lib.default_cache else cache_dir in
      add_catalogs catalogs (record { repos = []; catalogs = []; cache = cache })
