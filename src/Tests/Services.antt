-- ===== src/Tests/Services.antt =====
-- Catalogs, versions, secrets and installations at concrete inputs.
use onyxia_backend.Common.{
  ℕ, suc, String, ◌≡◌, ◌↔◌, ◌⊎◌, refl, true, false, none, some, List, [], ◌∷◌, Dict, errorf, Result,
  ok, err, All, arith, eq_iff, ◌==◌, if◌then◌else◌,
}
use onyxia_backend.Common.Any.{Any, str}
use onyxia_backend.Common.Text.{trim_space}
use onyxia_backend.UserContext.{User, user}
use onyxia_backend.Services.Config.{CatalogConfig, Regexps, validate_catalogs_config}
use onyxia_backend.Services.Config.Valid.{IsValid, HasMode}
use onyxia_backend.Services.Config.Distinct.{HasDistinctIds, validate_catalogs_config_iff}
use onyxia_backend.Services.Versions.{VersionFilter, skip_patches, apply, version_filter_from}
use onyxia_backend.Services.Versions.Kept.{offered, version_filter_from-apply}
use onyxia_backend.Services.Domain.{Package, PackageRef, PackageVersion}
use onyxia_backend.Services.Catalogs.{PackageRepository, is_for_user}
use onyxia_backend.Services.Catalogs.Listed.{Some, is_for_user_iff}
use onyxia_backend.Services.Install.{
  StartRequest, Ports, InstallRequest, InstallParams, start_request, install_service,
}
use onyxia_backend.Services.Install.Nowhere.{install_service_nowhere}

-- Patterns that are matched as a whole; the text "(" is none.
abbrev pub whole : Regexps
whole = record {
  Regexp = String;
  compile = λ p. if p == "(" then err (errorf "bad pattern" []) else ok p;
  match_string = λ p s. p == s;
}

abbrev pub latest : CatalogConfig
latest = record {
  catalog_type = "helm";
  id = "ide";
  name = ("en", "IDE") ∷ [];
  description = [];
  maintainer = "";
  status = "PROD";
  highlighted = "jupyter" ∷ [];
  excluded = [];
  skip_tls_verify = false;
  ca_file = none;
  allow_sharing = false;
  restrictions = [];
  username = none;
  password = none;
  location = "https://h";
  multiple_services_mode = "skipPatches";
  max_number_of_versions = none;
  packages = none;
}

abbrev pub restricted : CatalogConfig
restricted = record latest {
  id = "gpu";
  restrictions = record { user_attribute_key = "group"; match_pattern = "ml" } ∷ [];
}

validate_catalogs_config_iff_example :
    (validate_catalogs_config whole (latest ∷ restricted ∷ []) ≡ ok tt)
    ↔ (All (IsValid whole) (latest ∷ restricted ∷ []) × HasDistinctIds (latest ∷ restricted ∷ []))
validate_catalogs_config_iff_example = validate_catalogs_config_iff whole (latest ∷ restricted ∷ [])

accepted : validate_catalogs_config whole (latest ∷ restricted ∷ []) ≡ ok tt
unfolding validate_catalogs_config trim_space
accepted = refl

abbrev mode : HasMode "skipPatches" none
mode = HasMode.skip_patches refl refl

version_filter_from-apply_example :
    (f : VersionFilter) × (version_filter_from latest ≡ ok f)
    × ((vs : List String) → apply f vs ≡ some (offered mode vs))
version_filter_from-apply_example = version_filter_from-apply latest mode

kept :
    apply skip_patches ("2.1.3" ∷ "2.1.2" ∷ "2.0.9" ∷ "x" ∷ [])
    ≡ some ("2.1.3" ∷ "2.0.9" ∷ "x" ∷ [])
unfolding apply
kept = refl

is_for_user_iff_example :
    (is_for_user whole (some (("group", str "ml") ∷ [])) restricted ≡ true) ↔ (
      (restricted.restrictions ≡ [])
      ⊎ ((attrs : Dict Any) × (some (("group", str "ml") ∷ []) ≡ some attrs)
          × Some whole attrs restricted.restrictions))
is_for_user_iff_example = is_for_user_iff whole (some (("group", str "ml") ∷ [])) restricted

-- A repository without packages that counts the calls.
abbrev pub empty_repository : PackageRepository
empty_repository = record {
  State = ℕ;
  list_packages = λ i n. (ok [], suc n);
  get_package = λ i p n. (ok none, suc n);
  get_package_schema = λ i p v n. (err (errorf "no schema" []), suc n);
  resolve_package = λ i p v n. (err (errorf "no version" []), suc n);
}

abbrev pub nothing_known : Package
nothing_known = record {
  catalog_id = "ide";
  name = "jupyter";
  description = "";
  home_url = record { scheme = ""; host = ""; path = ""; raw_query = ""; fragment = "" };
  icon_url = record { scheme = ""; host = ""; path = ""; raw_query = ""; fragment = "" };
}

abbrev ref : PackageRef
ref = record { pkg = nothing_known; versions = "1.0.0" ∷ [] }

abbrev version : PackageVersion
version = record { pkg = nothing_known; version = "1.0.0"; repo_url = "https://h/" }

-- Ports that count the calls.
abbrev ports : Ports
ports = record {
  State = ℕ;
  resolve_package = λ c p v n. (ok version, suc n);
  ensure_onyxia_secret = λ ns r d n. (ok tt, suc n);
  start_install = λ r p v n. (ok tt, suc n);
}

abbrev pub alice : User
alice = record { username = "a"; groups = []; roles = []; attributes = none }

abbrev pub body : InstallRequest
body = record {
  package_name = "jupyter";
  catalog_id = "ide";
  name = "mine";
  version = none;
  friendly_name = none;
  options = some (("cpu", "1") ∷ []);
}

abbrev pub params : InstallParams
params = record { release_id = "r"; onyxia_project = none }

abbrev pub unmarshal : String → Result Any
unmarshal t = ok (str t)

abbrev request : StartRequest
request = start_request alice body params (("cpu", str "1") ∷ [])

abbrev anywhere : StartRequest → ℕ → Result (Unit {0}) × ℕ
anywhere req n = (ok tt, suc n)

abbrev only_nowhere : StartRequest → ℕ → Result (Unit {0}) × ℕ
only_nowhere req n = if req.namespace == "" then (ok tt, suc n) else (err (errorf "no" []), n)

install_service_nowhere_example :
    install_service unmarshal anywhere (user (some alice) ∷ []) (some body) params 0
    ≡ install_service unmarshal only_nowhere (user (some alice) ∷ []) (some body) params 0
install_service_nowhere_example =
    install_service_nowhere unmarshal anywhere only_nowhere
      (λ req n namespace share. ground (arith, eq_iff req.namespace "")) (user (some alice) ∷ [])
      (some body) params 0
