-- ===== src/Onboarding/Server/Served.antt =====
-- Which requests the onboarding server answers with success, over any security handler and any
-- controller, and which of the answers of a controller it sends.
use onyxia_backend.Common.{
  ℕ, String, ◌≡◌, ◌≢◌, ◌⊎◌, inl, inr, refl, ap, ◌∙◌, true, Option, none, some, [], ◌∷◌, ◌==◌, Error,
  arith, eq_iff, Bool-cases, Option-cases,
}
use onyxia_backend.Common.Text.{after_prefix, after_prefix_eq}
use onyxia_backend.UserContext.{Context}
use onyxia_backend.Dpop.Request.{Request}
use onyxia_backend.Onboarding.Controller.{OnboardRes}
use onyxia_backend.Server.{
  Incoming, request_of, DecodeError, ServerError, decode_request_error, Reply, failed, written,
  HttpLib, elem_of, cut_prefix, secured, respond, respond-state, respond-written,
}
use onyxia_backend.Server.Passed.{secured_cases, secured_lem, secured_back}
use onyxia_backend.Server.Body.{Jx}
use onyxia_backend.Onboarding.Server.{
  decode_onboard_request, encode_onboard_response, handle_onboard_request, serve_http,
}

module _ {C S : Type 0} (lib : HttpLib) (jx : Jx)
    (handle_oidc : Context → Request → C → Context × Option Error × C)
    (onboard : Context → Option String → S → (OnboardRes × Option Error) × S) where
  -- The route of the operation
  abbrev pub IsRouted : Incoming → Type 0
  IsRouted r = (elem_of lib r ≡ "/api/onboarding") × (r.method ≡ "POST")

  -- The request was let pass by the security handler, and its body was decoded: it reached the
  -- controller, in the context `sctx` and with this group.
  pub record IsPassedOn (ctx : Context) (r : Incoming) (c : C) (sctx : Context)
      (group : Option String) : Type 0 where
    pub passed : (handle_oidc ctx (request_of r) c).1 ≡ none
    pub context : (handle_oidc ctx (request_of r) c).0 ≡ sctx
    pub decoded : decode_onboard_request jx lib r ≡ inl group

  decoded_cases :
      (o : Option String ⊎ DecodeError)
      → ((group : Option String) × (o ≡ inl group)) ⊎ ((e : DecodeError) × (o ≡ inr e))
  decoded_cases (inl group) = inl (group, refl)
  decoded_cases (inr e) = inr (e, refl)

  module _ (ctx : Context) (r : Incoming) (c : C) (s : S) where
    abbrev handled : Reply × C × S
    handled = handle_onboard_request lib jx handle_oidc onboard ctx r c s

    -- Either the request did not reach the controller, or the controller's answer is the outcome.
    handle_cases :
        ((e : ServerError) × (handled.0 ≡ failed e) × (handled.2 ≡ s))
        ⊎ ((sctx : Context) × (group : Option String) × IsPassedOn ctx r c sctx group
            × (handled.0 ≡ (respond encode_onboard_response (onboard sctx group s)).0)
            × (handled.2 ≡ (respond encode_onboard_response (onboard sctx group s)).1))
    unfolding handle_onboard_request
    handle_cases = elim (secured_cases (secured lib handle_oidc (true ∷ []) ctx r c).0) [
      | inr (e, p) ↦ inl (e, ground arith, ground arith)
      | inl (sctx, p) ↦ elim (decoded_cases (decode_onboard_request jx lib r)) [
        | inr (e, d) ↦ inl (decode_request_error e, ground arith, ground arith)
        | inl (group, d) ↦
            let (passed, context) = secured_lem lib handle_oidc ctx r c sctx p in
            inr (
              sctx,
              group,
              record { passed = passed; context = context; decoded = d },
              ground arith,
              ground arith,
            )
      ]
    ]

  route_lem :
      (ctx : Context) (r : Incoming) (c : C) (s : S)
      → (IsRouted r
          × (serve_http lib jx handle_oidc onboard "" ctx r c s
              ≡ handle_onboard_request lib jx handle_oidc onboard ctx r c s))
        ⊎ (((status : ℕ) → (serve_http lib jx handle_oidc onboard "" ctx r c s).0 ≢ written status)
            × ((serve_http lib jx handle_oidc onboard "" ctx r c s).2 ≡ s))
  unfolding serve_http cut_prefix
  route_lem ctx r c s = elim (Option-cases (after_prefix "/api/onboarding" (elem_of lib r))) [
    | inl e ↦ inr (λ status h. ground arith, ground arith)
    | inr (rest, e) ↦ elim (Bool-cases (rest == "")) [
      | inr n ↦ inr (λ status h. ground arith, ground arith)
      | inl n ↦ elim (Bool-cases (r.method == "POST")) [
        | inr m ↦ inr (λ status h. ground arith, ground arith)
        | inl m ↦
            let empty : rest ≡ "" = (eq_iff rest "").0 n in
            inl (
              (
                after_prefix_eq "/api/onboarding" (elem_of lib r) (e ∙ ap some empty),
                (eq_iff r.method "POST").0 m,
              ),
              ground arith,
            )
      ]
    ]
  ]

  module _ (ctx : Context) (r : Incoming) (c : C) (s : S) where
    abbrev pub served : Reply × C × S
    served = serve_http lib jx handle_oidc onboard "" ctx r c s

    -- A request changes nothing but the state of the security handler, unless it is one of the
    -- operation's route that the security handler lets pass and whose body is decoded; then the
    -- outcome is that of the controller in the context that the security handler made.
    pub served_cases :
        (((status : ℕ) → served.0 ≢ written status) × (served.2 ≡ s))
        ⊎ (IsRouted r
            × (sctx : Context) × (group : Option String) × IsPassedOn ctx r c sctx group
            × (served.0 ≡ (respond encode_onboard_response (onboard sctx group s)).0)
            × (served.2 ≡ (onboard sctx group s).1))
    served_cases = elim (route_lem ctx r c s) [
      | inr e ↦ inl e
      | inl (routed, e) ↦ elim (handle_cases ctx r c s) [
        | inl (x, p, q) ↦ inl (λ status h. ground arith, ground arith)
        | inr (sctx, group, passed, p, q) ↦ inr (
          routed,
          sctx,
          group,
          passed,
          ground arith,
          ground (arith, respond-state encode_onboard_response (onboard sctx group s)),
        )
      ]
    ]

    -- A response is sent with a status only for a request that reached the controller and for which
    -- the controller returned no error; the status is that of the controller's response.
    pub served-written :
        (status : ℕ)
        → served.0 ≡ written status
        → IsRouted r
          × (sctx : Context) × (group : Option String) × IsPassedOn ctx r c sctx group
          × ((onboard sctx group s).0.1 ≡ none)
          × (status ≡ encode_onboard_response (onboard sctx group s).0.0)
          × (served.2 ≡ (onboard sctx group s).1)
    served-written status h = elim served_cases [
      | inl (never, q) ↦ absurd (never status h)
      | inr (routed, sctx, group, passed, p, q) ↦
          let (fine, code) =
            respond-written encode_onboard_response (onboard sctx group s) status (ground arith) in
          (routed, sctx, group, passed, fine, code, q)
    ]

    -- A request that reaches the controller, by the route, is answered as the controller answers.
    pub passed-served :
        (sctx : Context) (group : Option String)
        → IsRouted r
        → IsPassedOn ctx r c sctx group
        → served.0 ≡ (respond encode_onboard_response (onboard sctx group s)).0
    unfolding serve_http cut_prefix handle_onboard_request after_prefix
    passed-served sctx group (path, method) p =
        let through : (secured lib handle_oidc (true ∷ []) ctx r c).0 ≡ inl sctx =
          secured_back lib handle_oidc ctx r c sctx p.passed p.context in
        let found : after_prefix "/api/onboarding" (elem_of lib r) ≡ some "" = rw path refl in
        let post : (r.method == "POST") ≡ true = (eq_iff r.method "POST").1 method in
        ground (arith, p.decoded, eq_iff "" "")
