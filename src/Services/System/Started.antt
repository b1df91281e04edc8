-- ===== src/Services/System/Started.antt =====
-- When a service is started over the adapters: the package of its catalog, its secret, and the
-- goroutine of its installation.
use onyxia_backend.Common.{
  ◌≡◌, ◌⊎◌, inl, inr, some, ◌∷◌, Error, wrapf, [], ok, err, arith, Result-cases,
}
use onyxia_backend.Services.Domain.{PackageVersion}
use onyxia_backend.Services.Catalogs.{PackageRepository}
use onyxia_backend.Services.Secrets.{SecretClient, ensure_onyxia_secret}
use onyxia_backend.Services.Release.{Installer, Job, start_install}
use onyxia_backend.Services.Install.{
  StartRequest, secret_data, started, with_secret, with_package, start,
}
use onyxia_backend.Services.System.{State, with_job, launch, services_ports}

module _ (repo : PackageRepository) (client : SecretClient) (installer : Installer) where
  -- The package of the request is resolved, its secret is ensured, with the catalog, the name, the
  -- owner and the sharing of the request, and `job` is its installation.
  pub record IsStarted (req : StartRequest) (s : State repo client installer)
      (job : Job installer.Chart) : Type 0 where
    pub pkg : PackageVersion
    pub resolved :
        (repo.resolve_package req.catalog_id req.package_name req.version s.packages).0 ≡ ok pkg
    pub ensured :
        (ensure_onyxia_secret client req.namespace req.release_id
          (some (secret_data req))
          s.secrets).0
        ≡ ok tt
    pub begun : (start_install installer req.name pkg req.values s.releases).0 ≡ ok job

  launched :
      (req : StartRequest) (pkg : PackageVersion) (s : State repo client installer)
      → ((job : Job installer.Chart) × ((start_install installer req.name pkg req.values
              s.releases).0
            ≡ ok job)
          × ((launch repo client installer req.name pkg req.values s).0 ≡ ok tt)
          × ((launch repo client installer req.name pkg req.values s).1.jobs ≡ job ∷ s.jobs))
        ⊎ ((e : Error) × ((launch repo client installer req.name pkg req.values s).0 ≡ err e)
            × ((launch repo client installer req.name pkg req.values s).1.jobs ≡ s.jobs))
  unfolding launch with_job
  launched req pkg s =
      let o = start_install installer req.name pkg req.values s.releases in
      elim (Result-cases o.0) [
        | inl (job, h) ↦ inl (job, h, ground arith, ground arith)
        | inr (e, h) ↦ inr (e, ground arith, ground arith)
      ]

  -- A service is started, and the goroutine of its installation with it, or it is not, and no
  -- goroutine is.
  pub start_cases :
      (req : StartRequest) (s : State repo client installer)
      → ((job : Job installer.Chart) × IsStarted req s job
          × ((start (services_ports repo client installer) req s).0 ≡ ok tt)
          × ((start (services_ports repo client installer) req s).1.jobs ≡ job ∷ s.jobs))
        ⊎ ((e : Error) × ((start (services_ports repo client installer) req s).0 ≡ err e)
            × ((start (services_ports repo client installer) req s).1.jobs ≡ s.jobs))
  unfolding start with_package with_secret started
  start_cases req s =
      let found = repo.resolve_package req.catalog_id req.package_name req.version s.packages in
      let made =
        ensure_onyxia_secret client req.namespace req.release_id (some (secret_data req))
          s.secrets in
      elim (Result-cases found.0) [
        | inr (e, f) ↦ inr (wrapf "resolve package: %w" [] e, ground arith, ground arith)
        | inl (pkg, f) ↦ elim (Result-cases made.0) [
          | inr (e, m) ↦ inr (wrapf "create onyxia secret: %w" [] e, ground arith, ground arith)
          | inl (u, m) ↦
              elim (launched req pkg (record s { packages = found.1; secrets = made.1 })) [
                | inr (e, b, j) ↦ inr (wrapf "helm start: %w" [] e, ground arith, ground arith)
                | inl (job, b, d, j) ↦ inl (
                  job,
                  record { pkg = pkg; resolved = f; ensured = m; begun = b },
                  ground arith,
                  ground arith,
                )
              ]
        ]
      ]

  pub started_lem :
      (req : StartRequest) (s : State repo client installer) (job : Job installer.Chart)
      → IsStarted req s job
      → (start (services_ports repo client installer) req s).0 ≡ ok tt
  unfolding start with_package with_secret started launch with_job
  started_lem req s job i = ground (arith, i.resolved, i.ensured, i.begun)
