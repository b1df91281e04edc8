-- ===== src/Services/Secrets.antt =====
-- services/adapters/k8s/onyxia_secret_gateway.go
pub mod Stored
use onyxia_backend.Common.{
  String, ◌≡◌, Bool, true, false, not, Option, none, some, List, [], ◌∷◌, Dict, ◌==◌, Error, Reason,
  conflict, reason_for_error, is_already_exists, is_not_found, Result, ok, err, if◌then◌else◌,
}
use onyxia_backend.Common.Text.{◌++◌}

abbrev pub onyxia_secret_type : String
onyxia_secret_type = "onyxia.sh/release.v1"

abbrev onyxia_name_prefix : String
onyxia_name_prefix = "sh.onyxia.release.v1."

abbrev pub build_onyxia_secret_name : String → String
build_onyxia_secret_name release_name = onyxia_name_prefix ++ release_name

-- A secret; `rest` is what the code does not set, which an update keeps. A byte slice is a text.
pub record Secret (Rest : Type 0) : Type 0 where
  pub name : String
  pub namespace : String
  pub secret_type : String
  pub contents : Option (Dict String)
  pub rest : Rest

-- The calls of the Kubernetes client, and `retry.RetryOnConflict` with the default back-off
pub record SecretClient : Type 1 where
  pub Rest : Type 0
  pub no_rest : Rest
  pub State : Type 0
  pub create : (namespace : String) → Secret Rest → State → Result (Unit {0}) × State
  pub get : (namespace name : String) → State → Result (Secret Rest) × State
  pub update : (namespace : String) → Secret Rest → State → Result (Unit {0}) × State
  pub delete : (namespace name : String) → State → Result (Unit {0}) × State
  pub retry_on_conflict : (State → Result (Unit {0}) × State) → State → Result (Unit {0}) × State

abbrev or_empty : Option (Dict String) → Dict String
or_empty none = []
or_empty (some m) = m

module _ (c : SecretClient) where
  open c use {Rest, no_rest, State, create, get, update, delete, retry_on_conflict}

  abbrev pub wanted_secret : (namespace name : String) → Option (Dict String) → Secret Rest
  wanted_secret namespace name contents = record {
    name = build_onyxia_secret_name name;
    namespace = namespace;
    secret_type = onyxia_secret_type;
    contents = some (or_empty contents);
    rest = no_rest;
  }

  -- The function that is retried, after its call of `Get`
  after_get :
      (namespace : String) → Secret Rest → Result (Secret Rest) × State → Result (Unit {0}) × State
  after_get namespace sec (err e, s) =
      let created = create namespace sec s in if is_not_found e then created else (err e, s)
  after_get namespace sec (ok cur, s) =
      update namespace (record cur { secret_type = onyxia_secret_type; contents = sec.contents }) s

  unfoldable pub attempt : (namespace : String) → Secret Rest → State → Result (Unit {0}) × State
  unfolding after_get
  attempt namespace sec s = after_get namespace sec (get namespace sec.name s)

  after_create :
      (namespace : String) → Secret Rest → Result (Unit {0}) × State → Result (Unit {0}) × State
  after_create namespace sec (ok u, s) = (ok tt, s)
  after_create namespace sec (err e, s) =
      let retried = retry_on_conflict (attempt namespace sec) s in
      if not (is_already_exists e) then (err e, s) else retried

  unfoldable pub ensure_onyxia_secret :
      (namespace name : String) → Option (Dict String) → State → Result (Unit {0}) × State
  unfolding after_create
  ensure_onyxia_secret namespace name contents s =
      let sec = wanted_secret namespace name contents in
      after_create namespace sec (create namespace sec s)

  missing_is_fine : Result (Unit {0}) × State → Result (Unit {0}) × State
  missing_is_fine (ok u, s) = (ok tt, s)
  missing_is_fine (err e, s) = if is_not_found e then (ok tt, s) else (err e, s)

  unfoldable pub delete_onyxia_secret :
      (namespace name : String) → State → Result (Unit {0}) × State
  unfolding missing_is_fine
  delete_onyxia_secret namespace name s =
      missing_is_fine (delete namespace (build_onyxia_secret_name name) s)

  data_of : Result (Secret Rest) × State → Result (Dict String) × State
  data_of (err e, s) = (err e, s)
  data_of (ok sec, s) = (ok (or_empty sec.contents), s)

  unfoldable pub read_onyxia_secret_data :
      (namespace name : String) → State → Result (Dict String) × State
  unfolding data_of
  read_onyxia_secret_data namespace name s =
      data_of (get namespace (build_onyxia_secret_name name) s)
