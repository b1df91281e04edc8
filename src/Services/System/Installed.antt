-- ===== src/Services/System/Installed.antt =====
-- What a request to install does over the adapters.
use onyxia_backend.Common.{
  String, ◌≡◌, ◌⊎◌, inl, inr, refl, Option, none, some, [], ◌∷◌, Error, errorf, Result, ok, arith,
  Option-cases, Result-cases,
}
use onyxia_backend.Common.Any.{Any}
use onyxia_backend.Common.{Dict}
use onyxia_backend.UserContext.{Context, User, get_user}
use onyxia_backend.Services.Catalogs.{PackageRepository}
use onyxia_backend.Services.Secrets.{SecretClient}
use onyxia_backend.Services.Release.{Installer, Job}
use onyxia_backend.Services.Install.{
  start, InstallRequest, InstallParams, InstallRes, install_accepted, start_request, values_of,
  answer, for_user, install_service,
}
use onyxia_backend.Services.Install.Accepted.{IsComplete, values_of_iff}
use onyxia_backend.Services.System.{State, services_ports}
use onyxia_backend.Services.System.Started.{IsStarted, start_cases, started_lem}

module _ (repo : PackageRepository) (client : SecretClient) (installer : Installer)
    (unmarshal : String → Result Any) where
  abbrev pub install :
      Context
      → Option InstallRequest
      → InstallParams
      → State repo client installer
      → (InstallRes × Option Error) × State repo client installer
  install ctx body params s =
      install_service unmarshal (start (services_ports repo client installer)) ctx body params s

  -- The user of the context, the values of the body, and the installation that is started for them
  pub record IsInstalled (ctx : Context) (req : InstallRequest) (params : InstallParams)
      (s : State repo client installer) (job : Job installer.Chart) : Type 0 where
    pub u : User
    pub values : Dict Any
    pub known : get_user ctx ≡ some u
    pub complete : IsComplete unmarshal req values
    pub started : IsStarted repo client installer (start_request u req params values) s job

  values_given :
      (req req' : InstallRequest) (values : Dict Any)
      → values_of unmarshal (some req) ≡ ok (req', values)
      → (req ≡ req') × IsComplete unmarshal req values
  values_given req req' values h =
      let (b, c) = (values_of_iff unmarshal (some req) req' values).0 h in
      let same : req ≡ req' = cc in (same, rw same c)

  pub install_cases :
      (ctx : Context) (req : InstallRequest) (params : InstallParams)
      (s : State repo client installer)
      → ((job : Job installer.Chart) × IsInstalled ctx req params s job
          × ((install ctx (some req) params s).0 ≡ (install_accepted, none))
          × ((install ctx (some req) params s).1.jobs ≡ job ∷ s.jobs))
        ⊎ ((e : Error) × ((install ctx (some req) params s).0.1 ≡ some e)
            × ((install ctx (some req) params s).1.jobs ≡ s.jobs))
  unfolding install_service for_user answer
  install_cases ctx req params s = elim (Option-cases (get_user ctx)) [
    | inl n ↦ inr (errorf "user not found" [], ground arith, ground arith)
    | inr (u, k) ↦ elim (Result-cases (values_of unmarshal (some req))) [
      | inr (e, v) ↦ inr (e, ground arith, ground arith)
      | inl ((req', values), v) ↦
          let (same, complete) = values_given req req' values v in
          elim (start_cases repo client installer (start_request u req params values) s) [
            | inr (e, f, jobs) ↦ inr (e, ground arith, ground arith)
            | inl (job, started, d, jobs) ↦ inl (
              job,
              record { u = u; values = values; known = k; complete = complete; started = started },
              ground arith,
              ground arith,
            )
          ]
    ]
  ]

  -- A request that starts an installation is accepted.
  pub installed-accepted :
      (ctx : Context) (req : InstallRequest) (params : InstallParams)
      (s : State repo client installer) (job : Job installer.Chart)
      → IsInstalled ctx req params s job
      → (install ctx (some req) params s).0 ≡ (install_accepted, none)
  unfolding install_service for_user answer
  installed-accepted ctx req params s job i =
      let v = (values_of_iff unmarshal (some req) req i.values).1 (refl, i.complete) in
      let done =
        started_lem repo client installer (start_request i.u req params i.values) s job i.started in
      ground (arith, i.known)
