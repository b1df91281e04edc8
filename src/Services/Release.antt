-- ===== src/Services/Release.antt =====
-- services/adapters/helm/release_gateway.go: the start of an installation, and its background part
pub mod Reports
use onyxia_backend.Common.{
  ℕ, String, ◌≡◌, ◌<◌, Bool, true, false, Option, none, some, List, [], ◌∷◌, ◌++◌, Dict, insert,
  ◌==◌, Error, errorf, wrapf, Result, ok, err, if◌then◌else◌,
}
use onyxia_backend.Common.Any.{Any}
use onyxia_backend.Services.Domain.{PackageVersion, chart_ref}

-- What the code takes from Helm to install: the namespace of its settings, finding and loading a
-- chart, and the values that its options give
pub record Installer : Type 1 where
  pub State : Type 0
  pub Chart : Type 0
  pub namespace : String
  pub locate_chart : (ref version : String) → State → Result String × State
  pub load : (path : String) → State → Result Chart × State
  pub merge_values : Result (Dict Any)

-- The goroutine of an installation, with what it has captured
pub record Job (Chart : Type 0) : Type 0 where
  pub release_name : String
  pub ref : String
  pub namespace : String
  pub version : String
  pub chart : Chart
  pub values : Dict Any

-- The loop over the values of the caller
unfoldable pub insert_all : Dict Any → Dict Any → Dict Any
unfolding insert
insert_all [] values = values
insert_all ((k, v) ∷ vals) values = insert_all vals (insert k v values)

module _ (lib : Installer) where
  open lib use {State, Chart}

  job_of :
      (release_name : String)
      → PackageVersion
      → Dict Any
      → Chart
      → Result (Dict Any)
      → Result (Job Chart)
  unfolding insert_all chart_ref
  job_of release_name pkg vals chart (err e) = err (wrapf "merging values: %w" [] e)
  job_of release_name pkg vals chart (ok values) = ok (record {
    release_name = release_name;
    ref = chart_ref pkg;
    namespace = lib.namespace;
    version = pkg.version;
    chart = chart;
    values = insert_all vals values;
  })

  with_path :
      (release_name : String)
      → PackageVersion
      → Dict Any
      → Result String × State
      → Result (Job Chart) × State
  unfolding job_of
  with_path release_name pkg vals (err e, s) =
      (err (wrapf "locating chart %q: %w" (chart_ref pkg ∷ []) e), s)
  with_path release_name pkg vals (ok path, s) =
      let (loaded, s') = lib.load path s in
      elim loaded [
        | err e ↦ (err (wrapf "loading chart: %w" [] e), s')
        | ok chart ↦ (job_of release_name pkg vals chart lib.merge_values, s')
      ]

  -- `StartInstall`: the goroutine that it starts, or the error that it returns
  unfoldable pub start_install :
      (release_name : String) → PackageVersion → Dict Any → State → Result (Job Chart) × State
  unfolding with_path chart_ref
  start_install release_name pkg vals s =
      let located = lib.locate_chart (chart_ref pkg) pkg.version s in
      if release_name == ""
      then (err (errorf "releaseName is required" []), s)
      else with_path release_name pkg vals located

-- Who is called back: the callbacks of the gateway, and those of the call
pub data Receiver : Type 0 where
  global per_call : Receiver

pub data Event : Type 0 where
  on_start on_success : Receiver → (release chart : String) → Event
  on_error : Receiver → (release chart : String) → Error → Event

-- The callbacks of a goroutine, in its order, if running the installation comes to `outcome`
unfoldable pub callbacks : (release chart : String) → Result (Unit {0}) → List Event
callbacks release chart (ok u) =
    on_start global release chart
    ∷ on_start per_call release chart
    ∷ on_success global release chart
    ∷ on_success per_call release chart
    ∷ []
callbacks release chart (err e) =
    on_start global release chart
    ∷ on_start per_call release chart
    ∷ on_error global release chart e
    ∷ on_error per_call release chart e
    ∷ []
