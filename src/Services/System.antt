-- ===== src/Services/System.antt =====
-- services/api/route/install_service.go: the ports that the installation of services is given, the
-- repository of packages, the gateway of secrets and the gateway of releases
pub mod Version
pub mod Started
pub mod Installed
use onyxia_backend.Common.{String, ◌≡◌, Option, some, List, [], ◌∷◌, Dict, Result, ok, err}
use onyxia_backend.Common.Any.{Any}
use onyxia_backend.Services.Domain.{PackageVersion}
use onyxia_backend.Services.Catalogs.{PackageRepository}
use onyxia_backend.Services.Secrets.{SecretClient, ensure_onyxia_secret}
use onyxia_backend.Services.Release.{Installer, Job, start_install}
use onyxia_backend.Services.Install.{Ports}

module _ (repo : PackageRepository) (client : SecretClient) (installer : Installer) where
  -- What the three keep, and the goroutines that were started, the last one first
  pub record State : Type 0 where
    pub packages : repo.State
    pub secrets : client.State
    pub releases : installer.State
    pub jobs : List (Job installer.Chart)

  with_job : State → Result (Job installer.Chart) × installer.State → Result (Unit {0}) × State
  with_job s (err e, r) = (err e, record s { releases = r })
  with_job s (ok job, r) = (ok tt, record s { releases = r; jobs = job ∷ s.jobs })

  unfoldable pub launch :
      (release_name : String) → PackageVersion → Dict Any → State → Result (Unit {0}) × State
  unfolding with_job start_install
  launch release_name pkg values s =
      with_job s (start_install installer release_name pkg values s.releases)

  abbrev pub services_ports : Ports
  services_ports = record {
    State = State;
    resolve_package = λ i n v s.
        let r = repo.resolve_package i n v s.packages in (r.0, record s { packages = r.1 });
    ensure_onyxia_secret = λ ns n m s.
        let r = ensure_onyxia_secret client ns n (some m) s.secrets in
        (r.0, record s { secrets = r.1 });
    start_install = λ n p v s. launch n p v s;
  }
