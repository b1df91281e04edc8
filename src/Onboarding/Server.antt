-- ===== src/Onboarding/Server.antt =====
-- onboarding/api/oas: the generated server of the onboarding API, from the HTTP request to the
-- status of the response
pub mod Served
pub mod Whole
pub mod Anonymous
use onyxia_backend.Common.{
  ℕ, zero, String, ◌≡◌, ◌⊎◌, inl, inr, Bool, true, false, Option, none, some, List, [], ◌∷◌, ◌==◌,
  Error, errorf, wrapf, wrapping, Result, ok, err, if◌then◌else◌, not,
}
use onyxia_backend.Common.Text.{after_prefix}
use onyxia_backend.UserContext.{Context}
use onyxia_backend.Dpop.Request.{Request, header_get}
use onyxia_backend.Onboarding.Controller.{
  OnboardRes, onboard_ok, onboard_forbidden, onboard_unauthorized,
}
use onyxia_backend.Server.Body.{Jx, decode_opt_string, decode_request}
use onyxia_backend.Server.{
  Incoming, request_of, DecodeError, media_type, body_required, unreadable, decode_body_error,
  invalid_content_type, ServerError, decode_request_error, controller_error, Reply, not_found,
  not_allowed, failed, written, HttpLib, elem_of, cut_prefix, secured, respond,
}

module _ (jx : Jx) where
  open jx use {Decoder}

  -- The callback of `OnboardingRequest.Decode`
  unfoldable pub decode_field : String → Option String → Decoder → Result (Option String × Decoder)
  unfolding decode_opt_string
  decode_field k group d =
      let read = decode_opt_string jx d in
      let skipped = jx.skip d in
      if k == "group"
      then wrapping "decode field \"group\": %w" [] read
      else elim skipped [ ok d' ↦ ok (group, d') | err e ↦ err e ]

  -- `OnboardingRequest.Decode`: the group, if it is set
  unfoldable pub decode_onboarding_request : Decoder → Result (Option String × Decoder)
  unfolding decode_field
  decode_onboarding_request d =
      wrapping "decode OnboardingRequest: %w" []
        (jx.obj_bytes (λ k group d. decode_field k group d) none d)

  -- `decodeOnboardRequest`
  unfoldable pub decode_onboard_request : HttpLib → Incoming → Option String ⊎ DecodeError
  unfolding decode_request decode_onboarding_request
  decode_onboard_request lib r = decode_request jx (λ d. decode_onboarding_request d) lib r

-- The status that `encodeOnboardResponse` writes
unfoldable pub encode_onboard_response : OnboardRes → ℕ
encode_onboard_response onboard_ok = 200
encode_onboard_response onboard_unauthorized = 401
encode_onboard_response onboard_forbidden = 403

module _ {C S : Type 0} (lib : HttpLib) (jx : Jx)
    (handle_oidc : Context → Request → C → Context × Option Error × C)
    (onboard : Context → Option String → S → (OnboardRes × Option Error) × S) where
  -- `handleOnboardRequest`, with `c` the state of the security handler and `s` that of the controller
  unfoldable pub handle_onboard_request : Context → Incoming → C → S → Reply × C × S
  unfolding secured respond encode_onboard_response decode_onboard_request
  handle_onboard_request ctx r c s =
      let (allowed, c') = secured lib handle_oidc (true ∷ []) ctx r c in
      elim allowed [
        | inr e ↦ (failed e, c', s)
        | inl sctx ↦ elim (decode_onboard_request jx lib r) [
          | inr e ↦ (failed (decode_request_error e), c', s)
          | inl group ↦
              let (reply, s') = respond encode_onboard_response (onboard sctx group s) in
              (reply, c', s')
        ]
      ]

  -- `ServeHTTP`
  unfoldable pub serve_http : (prefix : String) → Context → Incoming → C → S → Reply × C × S
  unfolding elem_of cut_prefix after_prefix handle_onboard_request
  serve_http prefix ctx r c s =
      let handled = handle_onboard_request ctx r c s in
      elim (cut_prefix prefix (elem_of lib r)) [
        | none ↦ (not_found, c, s)
        | some elem ↦ elim (after_prefix "/api/onboarding" elem) [
          | none ↦ (not_found, c, s)
          | some rest ↦
              if not (rest == "")
              then (not_found, c, s)
              else if r.method == "POST"
              then handled
              else (not_allowed "POST", c, s)
        ]
      ]
