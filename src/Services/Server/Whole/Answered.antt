-- ===== src/Services/Server/Whole/Answered.antt =====
-- What the handler of an installation does, after its security block.
use onyxia_backend.Common.{
  ℕ, String, ◌≡◌, ◌⊎◌, inl, inr, refl, ap, ◌∙◌, Bool, some, ◌∷◌, ok, arith, Result-cases,
}
use onyxia_backend.UserContext.{Context}
use onyxia_backend.Services.Release.{Job}
use onyxia_backend.Services.Install.{InstallParams, install_accepted}
use onyxia_backend.Services.System.Installed.{IsInstalled, install_cases}
use onyxia_backend.Server.{
  Incoming, Reply, written, respond_if, respond_if-state, respond_if-written,
}
use onyxia_backend.Services.Server.InstallBody.{
  ServiceInstallRequest, decode_install_service_request, install_request,
}
use onyxia_backend.Services.Server.Params.{decode_install_service_params}
use onyxia_backend.Services.Server.Statuses.{encode_install_service}
use onyxia_backend.Services.Server.Handlers.{install_answer}
use onyxia_backend.Services.Server.Whole.{Parts, State, handler}

sum_cases : {A B : Type 0} (o : A ⊎ B) → ((a : A) × (o ≡ inl a)) ⊎ ((b : B) × (o ≡ inr b))
sum_cases (inl a) = inl (a, refl)
sum_cases (inr b) = inr (b, refl)

module _ (w : Parts) where
  abbrev pub answered : (escaped : Bool) → String → Incoming → Context → State w → Reply × State w
  answered escaped i r ctx s =
      install_answer w.lib w.jx (handler w).install_service escaped i r ctx s

  -- No installation is started, and nothing is written.
  pub record IsRefused (o : Reply × State w) (s : State w) : Type 0 where
    pub jobs : o.1.system.jobs ≡ s.system.jobs
    pub not_written : (n : ℕ) → o.0 ≡ written n → ⊥

  pub record IsStarted (escaped : Bool) (i : String) (r : Incoming) (ctx : Context) (s : State w)
      (o : Reply × State w) : Type 0 where
    pub job : Job w.installer.Chart
    pub params : InstallParams
    pub given : decode_install_service_params w.lib escaped i r.header ≡ inl params
    pub body : ServiceInstallRequest
    pub decoded : decode_install_service_request w.jx w.lib r ≡ inl body
    pub installed :
        IsInstalled w.repo w.client w.installer w.unmarshal ctx
          (install_request body)
          params
          s.system
          job
    pub jobs : o.1.system.jobs ≡ job ∷ s.system.jobs
    pub status : (n : ℕ) → o.0 ≡ written n → n ≡ 202

  accepted_status : (n : ℕ) → encode_install_service w.lib install_accepted ≡ ok n → n ≡ 202
  unfolding encode_install_service
  accepted_status n h = elim (Result-cases (w.lib.encode_param "Location" (some ""))) [
    | inl (u, e) ↦ ground arith
    | inr (x, e) ↦ ground arith
  ]

  pub answered_cases :
      (escaped : Bool) (i : String) (r : Incoming) (ctx : Context) (s : State w)
      → IsStarted escaped i r ctx s (answered escaped i r ctx s)
        ⊎ IsRefused (answered escaped i r ctx s) s
  unfolding install_answer
  answered_cases escaped i r ctx s =
      elim (sum_cases (decode_install_service_params w.lib escaped i r.header)) [
        | inr (e, p) ↦ inr (record { jobs = ground arith; not_written = λ n h. ground arith })
        | inl (params, p) ↦ elim (sum_cases (decode_install_service_request w.jx w.lib r)) [
          | inr (e, d) ↦ inr (record { jobs = ground arith; not_written = λ n h. ground arith })
          | inl (body, d) ↦
              let o = (handler w).install_service ctx (some (install_request body)) params s in
              let here : answered escaped i r ctx s
                  ≡ respond_if w.lib (encode_install_service w.lib) o =
                ground arith in
              let state =
                ap (λ (x : Reply × State w). x.1.system.jobs) here
                ∙ ap (λ (x : State w). x.system.jobs)
                    (respond_if-state w.lib (encode_install_service w.lib) o) in
              let status = respond_if-written w.lib (encode_install_service w.lib) o in
              elim (install_cases w.repo w.client w.installer w.unmarshal ctx (install_request body)
                params s.system) [
                  | inr (e, f, jobs) ↦ inr (record {
                    jobs = state ∙ jobs;
                    not_written =
                        λ n h. let (none_here, code) = status n (ground arith) in ground arith;
                  })
                  | inl (job, installed, fine, jobs) ↦ inl (record {
                    job = job;
                    params = params;
                    given = p;
                    body = body;
                    decoded = d;
                    installed = installed;
                    jobs = state ∙ jobs;
                    status = λ n h.
                        let (none_here, code) = status n (ground arith) in
                        accepted_status n (ground arith);
                  })
                ]
        ]
      ]
