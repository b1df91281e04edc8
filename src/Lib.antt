-- ===== src/Lib.antt =====
-- Models of onyxia-backend, the Go services behind Onyxia, with the theorems about them.
--
-- The program has two servers. The onboarding server (onboarding/) answers one request: it makes
-- the namespace of a user or of a group and puts the configured quota on it. The services server
-- (services/) offers the catalogs of charts and installs services. Both authenticate a request in
-- the same way (internal/auth), with an OIDC access token, which may be bound to a key that the
-- request has to prove with a DPoP proof, and pass the user on in the context
-- (internal/usercontext).
--
-- The files and the code:
--   Common       what all parts share: maps, errors and results, texts, JSON values
--   UserContext  internal/usercontext and internal/auth/oidc/context.go: `with_user`, `get_user`
--                and the other getters, `with_cnf_jkt`, `cnf_jkt_from_context`
--   Dpop         internal/auth/oidc/dpop: Dpop/Jti is jti.go (`seen` is `JTICache.Seen`, `evict`,
--                `new_jti_cache`), Dpop/Request is request.go (`find_authorization`,
--                `absolute_request_url`), Dpop/Verify is verify.go (`verify_proof`, `match_htu`),
--                Dpop/Time its durations
--   Http         internal/httputil/proxy.go: `proxy_headers`
--   Oidc         internal/auth/oidc/oidc.go: Oidc/Claims has `validate_audience`,
--                `extract_claim`, `extract_string_array`, `extract_cnf_jkt`; Oidc/Verify has
--                `verify_token`, `verify_proof`, `verify_request`, and `verify_anonymous` of
--                internal/auth/noauth/noauth.go; Oidc/New is the construction (`new_auth`)
--   Configloader internal/configloader/configloader.go: `load`, with `env_key` for the names of the
--                environment variables
--   Onboarding   Onboarding/Domain is onboarding/domain, the results of onboarding/port and the
--                conversion of quotas in onboarding/api/route/onboarding.go; Onboarding/Adapter
--                is onboarding/adapter/kubernetes/namespace_service.go (`create_namespace`,
--                `apply_resource_quotas`); Onboarding/Usecase is onboarding/usecase (`onboard`,
--                `get_namespace_annotations`, `get_quota`); Onboarding/Controller is
--                onboarding/api/controller/onboarding.go
--   Services     Services/Config is services/bootstrap/env/types_catalog.go and validate.go
--                (`validate_catalogs_config`); Services/Versions is
--                services/adapters/helm/version_filter.go (`version_filter_from`, `apply`);
--                Services/Domain has the data of services/domain and
--                internal/tools/localizedstring.go; Services/Catalogs is
--                services/usecase/catalog.go (`list_user_catalogs`, `get_package`);
--                Services/Secrets is services/adapters/k8s/onyxia_secret_gateway.go
--                (`ensure_onyxia_secret`); Services/Install is `Start` of
--                services/usecase/service_lifecycle.go and
--                services/api/controller/install_service.go (`start`, `install_service`);
--                Services/Controller is services/api/controller/catalog.go (`get_my_catalogs`,
--                `get_my_package`, `get_package_schema`)
--                Services/Helm is services/adapters/helm/package_repository.go: its construction
--                (`new_package_repository`), Services/Helm/Index for the index of a Helm repository
--                (`load_helm_index`, `list_helm_packages`, `get_helm_package`), Services/Helm/Oci
--                for OCI catalogs (`get_oci_package`, `pull_chart`), Services/Helm/Packages for its
--                methods (`list_packages`, `get_package`, `resolve_package`);
--                Services/Release is services/adapters/helm/release_gateway.go (`start_install`, and
--                `callbacks` for its goroutine), with the interleavings of many such goroutines in
--                Services/Release/Reports; Services/System puts the three adapters under the use
--                case as services/api/route/install_service.go does
--   Server       what the generated servers share (the files oas_router_gen.go, oas_handlers_gen.go
--                and oas_security_gen.go of onboarding/api/oas): the path, the requirements, and the
--                security block of a handler; Onboarding/Server is the server of the onboarding API
--                (`serve_http`, `handle_onboard_request`, `decode_onboard_request`), and
--                Onboarding/Server/Whole puts it together with the verification of requests, the
--                controller, the use case and the adapter as onboarding/api/route does
--                Server/Body is the decoding of a body, and Server/Security the choice of the
--                security handler (`build_security_handler`, onboarding/api/middleware/security.go),
--                the same in both.
--                Services/Router is the router of services/api/oas (`route`). Services/Server has the
--                handlers for the catalogs and for a package, Services/Server/InstallBody the body of
--                a request to install (`decode_install_request`), Services/Server/Params the
--                parameters, Services/Server/Statuses the statuses of the responses,
--                Services/Server/Handlers the handlers of the other operations
--                (`handle_install_service_request`), Services/Server/Serve the whole generated server
--                (`serve_http`), and Services/Server/Whole puts it together with the verification of
--                requests, the controllers, the use cases and the adapters as services/api/route does
--   Tests        parameters small enough to run, and the theorems at concrete inputs
--
-- How Go is read. A map is an association list in the order in which a `range` loop happens to
-- meet its keys; what is shown for every list holds for every order. An error is the format text
-- with its arguments, or one that wraps another. Code that may panic has an outcome, the result
-- that it returned or the panic. State is passed along explicitly: the cache of identifiers, the
-- cluster, and the use case, whose annotation map the requests change. The mutex of the cache makes
-- its calls a sequence, and each call reads the clock twice; a clock reading is a parameter, in
-- nanoseconds since 1970. Goroutines are interleaved by a step relation. A context is the chain of
-- the values added to it; whether it is cancelled is a parameter, by the round of the loop that
-- asks. Groups and roles that are nil or empty are not told apart, since the code does not. Texts
-- are sequences of characters; `equal_fold` folds the ASCII letters and the two other characters
-- that fold to one, which is exact where one of the two texts is ASCII, as the code's constants,
-- methods, schemes and hosts are. No definition needs fuel: every loop is over a list or a text.
--
-- Parameters. `Jose` holds what the code takes from go-jose, net/url and crypto, `TokenVerifier`
-- what it takes from go-oidc, `Providers` how go-oidc makes one, with `ChecksSignatures` for the
-- hypothesis that it checks signatures unless it is told not to, `Viper` what the loader of the
-- configuration takes from viper, with `KeepsValues` for the hypothesis that a text that is set
-- for a listed key is its value, that the other listed keys keep theirs, and that the same keys
-- are listed, `Cluster` what it takes from the Kubernetes client and its quantities, with
-- `ReadsBack` for the hypothesis that a cluster reads back what was written to it. `SecretClient`
-- is the same client for secrets, with its retry on a conflict, and `Stores` the hypothesis for
-- it; `HelmLib` is what the packages need of Helm and net/url, with `LoadsClean` for the
-- hypothesis that an index that is loaded holds no nil pointer, and `Installer` what an
-- installation needs of Helm; `Regexps` is the package regexp; `PackageRepository` and `Ports`
-- are interfaces of services/ports; `unmarshal` is `json.Unmarshal`. A byte slice is a text.
-- `HttpLib` and `Jx` are what the generated servers take from net/http, mime, ogen and jx, with
-- `OnlyCallsBack` for the hypothesis that a decoder of objects only calls its callback.
-- `Surroundings` holds the clock in milliseconds and `fmt.Sprint` on values that are not texts.
--
-- Not modelled: logging, the start of the servers, the reading of the configuration by viper, the
-- client that configures Helm (services/adapters/helm/restclient.go), telemetry, error texts and
-- clients of the generated API code, its function FindPath, which only names routes, the JSON of
-- its answers, the Kubernetes client, and overflow of the claim `iat` when seconds become
-- nanoseconds.
pub mod Common
pub mod UserContext
pub mod Dpop
pub mod Http
pub mod Oidc
pub mod Configloader
pub mod Server
pub mod Onboarding
pub mod Services
pub mod Tests
