-- ===== src/Services/Server/Whole.antt =====
-- services/api/route: the server of the services API as it is put together (setup.go, handler.go,
-- catalog.go and install_service.go), the generated server over the verification of requests, the two
-- controllers, their use cases and the adapters
pub mod Answered
pub mod Outcomes
pub mod Installation
pub mod Written
use onyxia_backend.Common.{String, ◌≡◌, Option, none, some, List, Dict, Error, Result}
use onyxia_backend.Common.Any.{Any}
use onyxia_backend.UserContext.{Context}
use onyxia_backend.Dpop.Jti.{JtiCache}
use onyxia_backend.Dpop.Request.{Url, Request}
use onyxia_backend.Dpop.Verify.{Jose}
use onyxia_backend.Oidc.Verify.{TokenVerifier, Auth, Clock, verify_request}
use onyxia_backend.Services.Config.{CatalogConfig, Regexps}
use onyxia_backend.Services.Catalogs.{PackageRepository}
use onyxia_backend.Services.Controller.{get_my_catalogs, get_my_package, get_package_schema}
use onyxia_backend.Services.Secrets.{SecretClient}
use onyxia_backend.Services.Release.{Installer}
use onyxia_backend.Services.Install.{start, install_service}
use onyxia_backend.Services.System
use onyxia_backend.Services.System.{services_ports}
use onyxia_backend.Server.{Incoming, Reply, HttpLib}
use onyxia_backend.Server.Body.{Jx}
use onyxia_backend.Services.Server.Serve.{Handler, serve_http}

-- What the server is put together from: the libraries, the configuration and the adapters.
pub record Parts : Type 1 where
  pub lib : HttpLib
  pub jx : Jx
  pub verifier : TokenVerifier
  pub auth : Auth
  pub jose : Jose
  pub url_string : Url → String
  pub clock : Clock
  pub re : Regexps
  pub repo : PackageRepository
  pub client : SecretClient
  pub installer : Installer
  pub cfgs : List CatalogConfig
  pub unmarshal : String → Result Any
  pub unmarshal_object : String → Result (Dict String)

-- The controller of catalogs has a repository of packages of its own.
pub record State (w : Parts) : Type 0 where
  pub catalogs : w.repo.State
  pub system : System.State w.repo w.client w.installer

module _ (w : Parts) where
  abbrev pub handle_oidc : Context → Request → JtiCache → Context × Option Error × JtiCache
  handle_oidc ctx r cache = verify_request w.verifier w.auth w.jose w.url_string w.clock ctx r cache

  abbrev on_catalogs : {A : Type 0} → (w.repo.State → A × w.repo.State) → State w → A × State w
  on_catalogs f s = let o = f s.catalogs in (o.0, record s { catalogs = o.1 })

  abbrev on_system :
      {A : Type 0}
      → (System.State w.repo w.client w.installer → A × System.State w.repo w.client w.installer)
      → State w
      → A × State w
  on_system f s = let o = f s.system in (o.0, record s { system = o.1 })

  -- `Handler` of handler.go; the events of a release are not implemented.
  abbrev pub handler : Handler (State w)
  handler = record {
    get_my_catalogs = λ ctx s. on_catalogs (λ k. get_my_catalogs w.re w.repo w.cfgs ctx k) s;
    get_my_package = λ i n s. on_catalogs (λ k. get_my_package w.re w.repo w.cfgs i n k) s;
    get_package_schema = λ i n v s.
        on_catalogs (λ k. get_package_schema w.re w.repo w.cfgs w.unmarshal_object i n v k) s;
    install_service = λ ctx req params s.
        on_system
          (λ k.
            install_service w.unmarshal (start (services_ports w.repo w.client w.installer)) ctx req
              params k)
          s;
    watch_release = λ ctx params s. ((none, some w.lib.not_implemented), s);
    watch_resources = λ ctx params s. ((none, some w.lib.not_implemented), s);
  }

  -- The whole server, without a path prefix
  abbrev pub serve : Context → Incoming → JtiCache → State w → Reply × JtiCache × State w
  serve ctx r cache s =
      serve_http w.lib w.jx (λ ctx r c. handle_oidc ctx r c) handler "" ctx r cache s
