-- ===== src/Services/Install/Accepted.antt =====
-- Which requests to install a service are accepted, and what is done for them.
use mathlib.Core.Path.{subst}
use onyxia_backend.Common.{
  String, ◌≡◌, ◌≢◌, ◌↔◌, inl, inr, Option, none, some, [], Dict, Result, ok, arith, eq_iff,
  Option-cases, Result-cases, Error, err, wrapf,
}
use onyxia_backend.Common.Any.{Any}
use onyxia_backend.UserContext.{Context, User, get_user}
use onyxia_backend.Services.Domain.{PackageVersion}
use onyxia_backend.Services.Install.{
  StartRequest, Ports, secret_data, started, with_secret, with_package, start, InstallRequest,
  InstallParams, install_accepted, start_request, unmarshal_options, values_of, response, answer,
  for_user, install_service,
}

module _ (p : Ports) where
  open p use {State}

  -- A service is started exactly if its package is resolved, then its secret is ensured, with the
  -- catalog, the name, the owner and the sharing of the request, and then its installation begins,
  -- with the package that was resolved.
  pub start_iff :
      (req : StartRequest) (s : State)
      → ((start p req s).0 ≡ ok tt) ↔ (
          (pkg : PackageVersion) × ((p.resolve_package req.catalog_id req.package_name req.version
              s).0
            ≡ ok pkg)
          × ((p.ensure_onyxia_secret req.namespace req.release_id
                (secret_data req)
                (p.resolve_package req.catalog_id req.package_name req.version s).1).0
              ≡ ok tt)
          × ((p.start_install req.name pkg req.values
                (p.ensure_onyxia_secret req.namespace req.release_id
                  (secret_data req)
                  (p.resolve_package req.catalog_id req.package_name req.version s).1).1).0
              ≡ ok tt))
  unfolding start with_package with_secret started
  start_iff req s =
      let found = p.resolve_package req.catalog_id req.package_name req.version s in
      let made = p.ensure_onyxia_secret req.namespace req.release_id (secret_data req) found.1 in
      (
        λ h. elim (Result-cases found.0) [
          | inr (e, f) ↦ ground arith
          | inl (pkg, f) ↦ elim (Result-cases made.0) [
            | inr (e, m) ↦ ground arith
            | inl (u, m) ↦ elim (Result-cases (p.start_install req.name pkg req.values made.1).0) [
              | inr (e, i) ↦ ground arith
              | inl (u', i) ↦ (pkg, f, m, i)
            ]
          ]
        ],
        λ (pkg, f, m, i). ground arith,
      )

  -- If the package is not resolved, nothing else is done.
  pub start-unresolved :
      (req : StartRequest) (s : State) (e : Error)
      → (p.resolve_package req.catalog_id req.package_name req.version s).0 ≡ err e
      → start p req s ≡ (
        err (wrapf "resolve package: %w" [] e),
        (p.resolve_package req.catalog_id req.package_name req.version s).1,
      )
  unfolding start with_package
  start-unresolved req s e h = ground arith

module _ (unmarshal : String → Result Any) where
  -- The body of a request is complete, and its options have these values.
  pub record IsComplete (req : InstallRequest) (values : Dict Any) : Type 0 where
    pub options : Dict String
    pub package_given : req.package_name ≢ ""
    pub catalog_given : req.catalog_id ≢ ""
    pub given : req.options ≡ some options
    pub readable : unmarshal_options unmarshal options [] ≡ ok values

  pub values_of_iff :
      (body : Option InstallRequest) (req : InstallRequest) (values : Dict Any)
      → (values_of unmarshal body ≡ ok (req, values)) ↔ ((body ≡ some req) × IsComplete req values)
  unfolding values_of
  values_of_iff none req values = (λ h. ground arith, λ h. ground arith)
  values_of_iff (some r) req values =
      let package_name = eq_iff r.package_name "" in
      let catalog_id = eq_iff r.catalog_id "" in
      (
        λ h. elim (Option-cases r.options) [
          | inl e ↦ ground arith
          | inr (options, e) ↦ elim (Result-cases (unmarshal_options unmarshal options [])) [
            | inr (f, u) ↦ ground arith
            | inl (vs, u) ↦ (
              ground arith,
              record {
                options = options;
                package_given = ground (arith, package_name);
                catalog_given = ground (arith, catalog_id);
                given = ground arith;
                readable = ground arith;
              },
            )
          ]
        ],
        λ (e, c). ground (
          arith, package_name, catalog_id, c.package_given, c.catalog_given, c.given, c.readable,
        ),
      )

  module _ {S : Type 0} (start_usecase : StartRequest → S → Result (Unit {0}) × S) where
    -- A request to install is accepted exactly if there is a user, the body is complete, and the
    -- service is started for this user with the values of the body.
    pub install_service_iff :
        (ctx : Context) (body : Option InstallRequest) (params : InstallParams) (s : S)
        → ((install_service unmarshal start_usecase ctx body params s).0.0 ≡ install_accepted) ↔ (
            (u : User) × (req : InstallRequest) × (values : Dict Any) × (get_user ctx ≡ some u)
            × (body ≡ some req)
            × IsComplete req values
            × ((start_usecase (start_request u req params values) s).0 ≡ ok tt))
    unfolding install_service for_user answer response
    install_service_iff ctx body params s = (
      λ h. elim (Option-cases (get_user ctx)) [
        | inl e ↦ ground arith
        | inr (u, e) ↦ elim (Result-cases (values_of unmarshal body)) [
          | inr (f, v) ↦ ground arith
          | inl ((req, values), v) ↦
              elim (Result-cases (start_usecase (start_request u req params values) s).0) [
                | inr (f, r) ↦ ground arith
                | inl (t, r) ↦
                    let (b, c) = (values_of_iff body req values).0 v in (u, req, values, e, b, c, r)
              ]
        ]
      ],
      λ (u, req, values, e, b, c, r).
          let v = (values_of_iff body req values).1 (b, c) in ground arith,
    )

    -- What holds of the state, and still holds after the service was started for the body, holds
    -- after the request.
    pub install_service-keeps :
        (P : S → Type 0) (ctx : Context) (body : Option InstallRequest) (params : InstallParams)
        (s : S)
        → P s
        → ((u : User) (req : InstallRequest) (values : Dict Any)
            → body ≡ some req
            → P (start_usecase (start_request u req params values) s).1)
        → P (install_service unmarshal start_usecase ctx body params s).1
    unfolding install_service for_user answer
    install_service-keeps P ctx body params s now after = elim (Option-cases (get_user ctx)) [
      | inl e ↦ subst P (ground arith) now
      | inr (u, e) ↦ elim (Result-cases (values_of unmarshal body)) [
        | inr (f, v) ↦ subst P (ground arith) now
        | inl ((req, values), v) ↦
            let (b, c) = (values_of_iff body req values).0 v in
            elim (Result-cases (start_usecase (start_request u req params values) s).0) [
              | inr (f, r) ↦ subst P (ground arith) (after u req values b)
              | inl (t, r) ↦ subst P (ground arith) (after u req values b)
            ]
      ]
    ]
