-- ===== src/Services/System/Version.antt =====
-- Requests to install that name no version.
use onyxia_backend.Common.{
  ℕ, String, ◌≡◌, ◌≢◌, inl, inr, refl, true, false, Option, none, some, List, [], lookup, contains,
  Error, Result, ok, err, arith, Bool-cases, Option-cases, Result-cases, wrapf, Dict,
}
use onyxia_backend.Common.Any.{Any}
use onyxia_backend.UserContext.{Context, User}
use onyxia_backend.Services.Config.{CatalogConfig, OciPackage}
use onyxia_backend.Services.Domain.{PackageVersion}
use onyxia_backend.Services.Secrets.{SecretClient}
use onyxia_backend.Services.Release.{Installer}
use onyxia_backend.Services.Helm.{ChartVersion, Entries, HelmLib, HelmPackageRepository, is_oci}
use onyxia_backend.Services.Helm.Index.{
  has_version, load_helm_index, resolve_in, resolve_helm_package,
}
use onyxia_backend.Services.Helm.Oci.{packages_of, find_oci, resolve_oci_package}
use onyxia_backend.Services.Helm.Packages.{resolve_package, recovered, package_repository}
use onyxia_backend.Services.Install.{
  StartRequest, Ports, start, InstallRequest, InstallParams, install_accepted, start_request,
  install_service,
}
use onyxia_backend.Services.Install.Accepted.{
  start-unresolved, install_service_iff, install_service-keeps,
}
use onyxia_backend.Services.System.{services_ports}

module _ (lib : HelmLib) (h : HelmPackageRepository lib) where
  -- No version of the package is called `v`, in no index that can be loaded for the catalog, and
  -- in no list of versions of an OCI catalog.
  pub record IsUnpublished (i name v : String) : Type 0 where
    pub in_index :
        (s : lib.State) (cr : lib.Repo) (idx : Entries) (vs : List (Option ChartVersion))
        → (load_helm_index lib h i s).0 ≡ ok (cr, idx)
        → lookup name idx ≡ some vs
        → has_version v vs ≡ some false
    pub in_catalog :
        (c : CatalogConfig) (p : OciPackage)
        → lookup i h.catalogs ≡ some c
        → is_oci c ≡ true
        → find_oci name (packages_of c) ≡ some p
        → contains p.versions v ≡ false

  not_resolved :
      (i name v : String) (s : lib.State) (pv : PackageVersion)
      → IsUnpublished i name v
      → recovered (resolve_package lib h i name v s).0 ≢ ok pv
  unfolding resolve_package resolve_oci_package resolve_helm_package resolve_in
  not_resolved i name v s pv none_such r = elim (Option-cases (lookup i h.catalogs)) [
    | inl f ↦ ground arith
    | inr (c, f) ↦ elim (Bool-cases (is_oci c)) [
      | inl t ↦ elim (Option-cases (find_oci name (packages_of c))) [
        | inl g ↦ ground arith
        | inr (p, g) ↦ ground (arith, none_such.in_catalog c p f t g)
      ]
      | inr t ↦ elim (Result-cases (load_helm_index lib h i s).0) [
        | inr (e, l) ↦ ground arith
        | inl ((cr, idx), l) ↦ elim (Option-cases (lookup name idx)) [
          | inl g ↦ ground arith
          | inr (vs, g) ↦ ground (arith, none_such.in_index s cr idx vs l g)
        ]
      ]
    ]
  ]

  module _ (client : SecretClient) (installer : Installer) (ctx_err : ℕ → Option Error)
      (unmarshal : String → Result Any) where
    abbrev ports : Ports
    ports = services_ports (package_repository lib h ctx_err) client installer

    start_unpublished :
        (req : StartRequest) (s : ports.State)
        → IsUnpublished req.catalog_id req.package_name req.version
        → (e : Error) × (q : lib.State) × (start ports req s ≡ (err e, record s { packages = q }))
    start_unpublished req s none_such =
        let found = resolve_package lib h req.catalog_id req.package_name req.version s.packages in
        elim (Result-cases (recovered found.0)) [
          | inl (pv, r) ↦
              absurd
                (not_resolved req.catalog_id req.package_name req.version s.packages pv none_such r)
          | inr (e, r) ↦
              (wrapf "resolve package: %w" [] e, found.1, start-unresolved ports req s e r)
        ]

    requested :
        (req req' : InstallRequest) (params : InstallParams) (u : User) (values : Dict Any)
        (s : ports.State)
        → some req ≡ some req'
        → req.version ≡ none
        → IsUnpublished req.catalog_id req.package_name "latest"
        → (e : Error) × (q : lib.State) × (start ports (start_request u req' params values) s
            ≡ (err e, record s { packages = q }))
    requested req req' params u values s b unnamed none_such =
        let same : req ≡ req' = cc in
        start_unpublished (start_request u req' params values) s
          (rw (← same) (rw unnamed none_such))

    -- The controller asks for the version "latest" where the request names none, and the repository
    -- takes this for the name of a version: unless the package has a version of that name, the
    -- request is not accepted, no secret is written and no installation is started.
    pub no_version_refused :
        (ctx : Context) (req : InstallRequest) (params : InstallParams) (s : ports.State)
        → req.version ≡ none
        → IsUnpublished req.catalog_id req.package_name "latest"
        → ((install_service unmarshal (start ports) ctx (some req) params s).0.0 ≢ install_accepted)
          × ((install_service unmarshal (start ports) ctx (some req) params s).1.secrets
              ≡ s.secrets)
          × ((install_service unmarshal (start ports) ctx (some req) params s).1.jobs ≡ s.jobs)
    no_version_refused ctx req params s unnamed none_such =
        let kept =
          install_service-keeps unmarshal (start ports)
            (λ (t : ports.State). (t.secrets ≡ s.secrets) × (t.jobs ≡ s.jobs)) ctx (some req) params
            s (refl, refl)
            (λ u req' values b.
              let (e, q, r) = requested req req' params u values s b unnamed none_such in
              rw r (refl, refl)) in
        (
          λ accepted.
              let (u, req', values, k, b, c, done) =
                (install_service_iff unmarshal (start ports) ctx (some req) params s).0 accepted in
              let (e, q, r) = requested req req' params u values s b unnamed none_such in cc,
          kept.0,
          kept.1,
        )
