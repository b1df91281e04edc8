-- ===== src/Services/Server/Whole/Written.antt =====
-- The operations of the server that only read: what they answer, and that they leave the services as
-- they are.
use onyxia_backend.Common.{
  ℕ, String, ◌≡◌, ◌⊎◌, inl, inr, refl, ap, ◌∙◌, Bool, Option, none, some, List, Error, Result, ok,
  err, arith, is, err_not_found, Bool-cases, Result-cases,
}
use onyxia_backend.UserContext.{Context, User, get_user}
use onyxia_backend.Dpop.Jti.{JtiCache}
use onyxia_backend.Server.{
  Incoming, Reply, written, failed, ServerError, guarded, respond, respond_if, respond-state,
  respond_if-state, respond-written, respond_if-written,
}
use onyxia_backend.Server.Passed.{guarded_cases}
use onyxia_backend.Services.Domain
use onyxia_backend.Services.Domain.{PackageRef}
use onyxia_backend.Services.Controller.{
  get_my_catalogs, get_my_package, get_package_schema, shown, catalogs_for, shown_package,
  shown_schema,
}
use onyxia_backend.Services.Catalogs
use onyxia_backend.Services.Catalogs.{list_user_catalogs, list_public_catalogs}
use onyxia_backend.Services.Server.{
  encode_get_my_catalogs, encode_get_my_package, decode_get_my_package_params, package_answer,
}
use onyxia_backend.Services.Server.Params.{
  decode_get_package_schema_params, decode_watch_release_params, decode_watch_resources_params,
}
use onyxia_backend.Services.Server.Statuses.{
  WatchRes, encode_get_package_schema, encode_watch_release, encode_watch_resources,
}
use onyxia_backend.Services.Server.Handlers.{
  schema_answer, watch_release_answer, watch_resources_answer,
}
use onyxia_backend.Services.Server.Whole.{Parts, State, handle_oidc, handler}

module _ (w : Parts) where
  -- An answer that is written has the status 200 or 404, and the services are left as they are.
  pub record OnlyReads (o : Reply × State w) (s : State w) : Type 0 where
    pub kept : o.1.system ≡ s.system
    pub status : (n : ℕ) → o.0 ≡ written n → (n ≡ 200) ⊎ (n ≡ 404)

  failed-OnlyReads : (e : ServerError) (s : State w) → OnlyReads (failed e, s) s
  failed-OnlyReads e s = record { kept = refl; status = λ n h. ground arith }

  params-OnlyReads :
      {P : Type 0} (o : P ⊎ ServerError) (f : P → Reply × State w) (s : State w)
      → ((p : P) → OnlyReads (f p) s)
      → OnlyReads (elim o [ inr e ↦ (failed e, s) | inl p ↦ f p ]) s
  params-OnlyReads (inl p) f s reads = reads p
  params-OnlyReads (inr e) f s reads = failed-OnlyReads e s

  shown_status :
      {S : Type 0} (o : Result (List Domain.Catalog) × S)
      → (shown o).0.1 ≡ none
      → encode_get_my_catalogs (shown o).0.0 ≡ 200
  unfolding shown encode_get_my_catalogs
  shown_status (ok cs, s) h = refl
  shown_status (err e, s) h = ground arith

  shown_package-status :
      {S : Type 0} (o : Result PackageRef × S)
      → (shown_package o).0.1 ≡ none
      → (encode_get_my_package (shown_package o).0.0 ≡ 200)
        ⊎ (encode_get_my_package (shown_package o).0.0 ≡ 404)
  unfolding shown_package encode_get_my_package
  shown_package-status (ok p, s) h = inl refl
  shown_package-status (err e, s) h = elim (Bool-cases (is e err_not_found)) [
    | inl t ↦ inr (ground arith)
    | inr t ↦ ground arith
  ]

  shown_schema-status :
      {S : Type 0} (o : Result String × S) (n : ℕ)
      → (shown_schema w.unmarshal_object o).0.1 ≡ none
      → encode_get_package_schema (shown_schema w.unmarshal_object o).0.0 ≡ ok n
      → n ≡ 200
  unfolding shown_schema encode_get_package_schema
  shown_schema-status (err e, s) n h k = ground arith
  shown_schema-status (ok raw, s) n h k = elim (Result-cases (w.unmarshal_object raw)) [
    | inl (m, u) ↦ ground arith
    | inr (e, u) ↦ ground arith
  ]

  respond-OnlyReads :
      {A : Type 0} (encode : A → ℕ) (o : (A × Option Error) × State w) (s : State w)
      → o.1.system ≡ s.system
      → (o.0.1 ≡ none → (encode o.0.0 ≡ 200) ⊎ (encode o.0.0 ≡ 404))
      → OnlyReads (respond encode o) s
  respond-OnlyReads encode o s kept status = record {
    kept = ap (λ (x : State w). x.system) (respond-state encode o) ∙ kept;
    status = λ n h. let (fine, code) = respond-written encode o n h in rw code (status fine);
  }

  respond_if-OnlyReads :
      {A : Type 0} (encode : A → Result ℕ) (o : (A × Option Error) × State w) (s : State w)
      → o.1.system ≡ s.system
      → ((n : ℕ) → o.0.1 ≡ none → encode o.0.0 ≡ ok n → (n ≡ 200) ⊎ (n ≡ 404))
      → OnlyReads (respond_if w.lib encode o) s
  respond_if-OnlyReads encode o s kept status = record {
    kept = ap (λ (x : State w). x.system) (respond_if-state w.lib encode o) ∙ kept;
    status = λ n h. let (fine, code) = respond_if-written w.lib encode o n h in status n fine code;
  }

  catalogs_for-status :
      (ctx : Context) (u : Option User) (k : w.repo.State)
      → (catalogs_for w.re w.repo w.cfgs ctx u k).0.1 ≡ none
      → encode_get_my_catalogs (catalogs_for w.re w.repo w.cfgs ctx u k).0.0 ≡ 200
  unfolding catalogs_for
  catalogs_for-status ctx (some u) k fine =
      shown_status (list_user_catalogs w.repo w.re ctx w.cfgs k) fine
  catalogs_for-status ctx none k fine = shown_status (list_public_catalogs w.repo w.cfgs k) fine

  pub catalogs-OnlyReads :
      (ctx : Context) (s : State w)
      → OnlyReads (respond encode_get_my_catalogs ((handler w).get_my_catalogs ctx s)) s
  unfolding get_my_catalogs
  catalogs-OnlyReads ctx s =
      respond-OnlyReads encode_get_my_catalogs ((handler w).get_my_catalogs ctx s) s refl
        (λ fine. inl (catalogs_for-status ctx (get_user ctx) s.catalogs fine))

  pub package-OnlyReads :
      (escaped : Bool) (i p : String) (ctx : Context) (s : State w)
      → OnlyReads (package_answer w.lib (handler w).get_my_package escaped i p ctx s) s
  unfolding package_answer get_my_package
  package-OnlyReads escaped i p ctx s =
      params-OnlyReads (decode_get_my_package_params w.lib escaped i p) _ s (λ params.
        respond-OnlyReads encode_get_my_package ((handler w).get_my_package (params.0) (params.1) s)
          s refl
          (λ fine.
            shown_package-status
              (Catalogs.get_package w.repo w.cfgs (params.0) (params.1) s.catalogs) fine))

  pub schema-OnlyReads :
      (escaped : Bool) (i p v : String) (ctx : Context) (s : State w)
      → OnlyReads (schema_answer w.lib (handler w).get_package_schema escaped i p v ctx s) s
  unfolding schema_answer get_package_schema
  schema-OnlyReads escaped i p v ctx s =
      params-OnlyReads (decode_get_package_schema_params w.lib escaped i p v) _ s (λ params.
        respond_if-OnlyReads encode_get_package_schema
          ((handler w).get_package_schema params.catalog_id params.package_name params.version s) s
          refl
          (λ n fine code. inl (
            shown_schema-status
              (Catalogs.get_package_schema w.repo w.cfgs params.catalog_id params.package_name
                params.version s.catalogs)
              n fine code)))

  no_events-OnlyReads :
      (encode : Option WatchRes → Result ℕ) (s : State w)
      → OnlyReads (respond_if w.lib encode ((none, some w.lib.not_implemented), s)) s
  no_events-OnlyReads encode s =
      respond_if-OnlyReads encode ((none, some w.lib.not_implemented), s) s refl
        (λ n fine code. ground arith)

  pub watch_release-OnlyReads :
      (escaped : Bool) (i : String) (r : Incoming) (ctx : Context) (s : State w)
      → OnlyReads (watch_release_answer w.lib (handler w).watch_release escaped i r ctx s) s
  unfolding watch_release_answer
  watch_release-OnlyReads escaped i r ctx s =
      params-OnlyReads (decode_watch_release_params w.lib escaped i r.header) _ s
        (λ params. no_events-OnlyReads (encode_watch_release w.lib) s)

  pub watch_resources-OnlyReads :
      (escaped : Bool) (i : String) (r : Incoming) (ctx : Context) (s : State w)
      → OnlyReads (watch_resources_answer w.lib (handler w).watch_resources escaped i r ctx s) s
  unfolding watch_resources_answer
  watch_resources-OnlyReads escaped i r ctx s =
      params-OnlyReads (decode_watch_resources_params w.lib escaped i r.header) _ s
        (λ params. no_events-OnlyReads (encode_watch_resources w.lib) s)

  pub guarded-OnlyReads :
      (requirements : List Bool) (next : Context → State w → Reply × State w)
      → ((sctx : Context) (s : State w) → OnlyReads (next sctx s) s)
      → (ctx : Context) (r : Incoming) (cache : JtiCache) (s : State w)
      → OnlyReads
          (
            (guarded w.lib (λ ctx r c. handle_oidc w ctx r c) requirements next ctx r cache s).0,
            (guarded w.lib (λ ctx r c. handle_oidc w ctx r c) requirements next ctx r cache s).2,
          )
          s
  guarded-OnlyReads requirements next reads ctx r cache s =
      elim (guarded_cases w.lib (λ ctx r c. handle_oidc w ctx r c) requirements next ctx r cache
        s) [
          | inl (e, reply, state) ↦ record {
            kept = ap (λ (x : State w). x.system) state;
            status = λ n h. ground arith;
          }
          | inr (sctx, p, reply, state) ↦ record {
            kept = ap (λ (x : State w). x.system) state ∙ (reads sctx s).kept;
            status = λ n h. (reads sctx s).status n (ground arith);
          }
        ]
