-- ===== src/Tests/Server.antt =====
-- Requests to the onboarding server, from the HTTP request to the status of the response.
use mathlib.Core.Path.{subst}
use onyxia_backend.Common.{
  ℕ, ap, arith, eq_iff, ◌≡◌, ◌⊎◌, inl, refl, true, false, Option, none, some, [], ◌∷◌, Error,
  errorf, Result, ok, err, String,
}
use onyxia_backend.Common.Int.{pos}
use onyxia_backend.Common.Any.{str, obj, field, end}
use onyxia_backend.Common.Text.{equal_fold, cut}
use onyxia_backend.UserContext.{Context, User, user, cnf_jkt, get_user}
use onyxia_backend.Dpop.Jti.{new_jti_cache, seen}
use onyxia_backend.Dpop.Verify
use onyxia_backend.Dpop.Verify.{Jose, verified_claims, bound_key}
use onyxia_backend.Oidc.Claims.{validate_audience, extract_claim}
use onyxia_backend.Oidc.Verify.{
  apply_user_context, token_info, verify_token, check_binding, verify_request,
}
use onyxia_backend.Oidc.Verify.Binding.{verify_request_iff}
use onyxia_backend.Oidc.Verify.Identity.{HasUserOf, accepted_user}
use onyxia_backend.Onboarding.Adapter
use onyxia_backend.Onboarding.Usecase
use onyxia_backend.Onboarding.Usecase.{get_namespace_annotations, get_quota}
use onyxia_backend.Onboarding.Controller
use onyxia_backend.Onboarding.Controller.{IsAllowed}
use onyxia_backend.Server.{Incoming, request_of, written, HttpLib, elem_of}
use onyxia_backend.Server.Body.{Jx}
use onyxia_backend.Onboarding.Server.{serve_http, decode_onboard_request}
use onyxia_backend.Onboarding.Server.Served.{IsRouted}
use onyxia_backend.Onboarding.Server.Whole.{
  handle_oidc, controller, Use, usecase as use_case, serve, IsAuthorized, IsInPlace,
  unauthorized_changes_nothing, written-IsInPlace, authorized_is_answered,
}
use onyxia_backend.Tests.Fixtures.{
  jose, url_string, verifier, auth, clock, cluster, cluster-ReadsBack, site,
}
use onyxia_backend.Tests.Onboarding.{usecase, surroundings}

abbrev pub lib : HttpLib
lib = record {
  normalize_escaped_path = λ s. some s;
  parse_media_type = λ s. ok s;
  is_skip = λ e. false;
  path_unescape = λ s. ok s;
  decode_value = λ s. ok s;
  field_required = errorf "field required" [];
  validate_string = λ n p s. ok tt;
  has_param = λ h n. false;
  decode_param = λ h n. ok "";
  encode_param = λ n v. ok tt;
  is_internal = λ e. false;
  fields_required = λ names. errorf "fields required" names;
  not_implemented = errorf "not implemented" [];
}

-- A decoder that takes every body for the value of the field `group` of an object
abbrev end_of_input : Error
end_of_input = errorf "EOF" []

abbrev read_text : Option String → Result (String × Option String)
read_text none = err end_of_input
read_text (some s) = ok (s, none)

abbrev skip : Option String → Result (Option String)
skip none = err end_of_input
skip (some s) = ok none

abbrev pub jx : Jx
jx = record {
  Decoder = Option String;
  decode_bytes = λ s. some s;
  obj_bytes = λ step group d. step "group" group d;
  str = λ d. read_text d;
  bool = λ d. err end_of_input;
  raw_append = λ d. read_text d;
  skip = λ d. skip d;
  is_eof = λ e. true;
}

abbrev pub post_jose : Jose
post_jose = record jose {
  claims = λ t k.
      ok (record { htm = "POST"; htu = "https://h/p"; iat = pos 1000; jti = t; ath = "hash" });
}

abbrev pub post : Incoming
post = record {
  method = "POST";
  url = record site { path = "/api/onboarding" };
  raw_path = "";
  header =
      ("Authorization", "DPoP t" ∷ [])
      ∷ ("Dpop", "proof" ∷ [])
      ∷ ("Content-Type", "application/json" ∷ [])
      ∷ [];
  host = "h";
  tls = true;
  content_length = none;
  body = ok "g";
}

abbrev before : Use lib jx verifier auth post_jose url_string clock cluster surroundings
before = (usecase, none)

accepted :
    (serve lib jx verifier auth post_jose url_string clock cluster surroundings [] post
      new_jti_cache before).0
    ≡ written 200
unfolding serve_http verify_request verify_token validate_audience extract_claim token_info
    check_binding Verify.verify_proof verified_claims bound_key seen equal_fold cut
    Controller.onboard apply_user_context Usecase.onboard Adapter.create_namespace
    get_namespace_annotations Adapter.apply_resource_quotas Adapter.convert_quota_to_resource_map
    get_quota
accepted = refl

abbrev alice : User
alice = record {
  username = "alice";
  groups = "g" ∷ [];
  roles = [];
  attributes =
      some (
        ("aud", str "onyxia")
        ∷ ("mail", str "a@b")
        ∷ ("cnf", obj (field "jkt" (str "k") end))
        ∷ []);
}

abbrev of_alice : Context
of_alice = user (some alice) ∷ cnf_jkt "k" ∷ []

verified :
    verify_request verifier auth post_jose url_string clock [] (request_of post) new_jti_cache
    ≡ (of_alice, none, (seen "proof" clock.evicted_at clock.recorded_at new_jti_cache).1)
unfolding verify_request verify_token validate_audience extract_claim token_info check_binding
    Verify.verify_proof verified_claims bound_key seen equal_fold cut apply_user_context
verified = refl

routed :
    IsRouted lib jx
      (handle_oidc lib jx verifier auth post_jose url_string clock cluster surroundings)
      (controller lib jx verifier auth post_jose url_string clock cluster surroundings)
      post
unfolding elem_of
routed = (refl, refl)

alice-IsAllowed :
    IsAllowed
      (use_case lib jx verifier auth post_jose url_string clock cluster surroundings)
      of_alice
      (some "g")
      alice
unfolding get_user
alice-IsAllowed = record { known = refl; member = λ g e. ground (arith, eq_iff "g" g) }

body_decoded : decode_onboard_request jx lib post ≡ inl (some "g")
unfolding decode_onboard_request
body_decoded = refl

alice-IsAuthorized :
    IsAuthorized lib jx verifier auth post_jose url_string clock cluster surroundings [] post
      new_jti_cache of_alice
      (some "g")
      alice
alice-IsAuthorized = record {
  routed = routed;
  authenticated =
      (verify_request_iff verifier auth post_jose url_string clock [] (request_of post)
          new_jti_cache of_alice).0
        (ap (λ x. x.0) verified, ap (λ x. x.1) verified);
  named = subst (HasUserOf verifier auth (request_of post)) (ap (λ x. x.0) verified) (
      accepted_user verifier auth post_jose url_string clock [] (request_of post) new_jti_cache
        (ap (λ x. x.1) verified));
  decoded = body_decoded;
  allowed = alice-IsAllowed;
}

written-IsInPlace_example :
    (◌≡◌ {A = ℕ} 200 200)
    × (sctx : Context) × (group : Option String) × (u : User) × IsAuthorized lib jx verifier auth
        post_jose url_string clock cluster surroundings [] post new_jti_cache sctx group u
    × (usecase.quotas.enabled ≡ true
        → IsInPlace lib jx verifier auth post_jose url_string clock cluster surroundings usecase u
            group
            (serve lib jx verifier auth post_jose url_string clock cluster surroundings [] post
              new_jti_cache before).2.1)
written-IsInPlace_example =
    written-IsInPlace lib jx verifier auth post_jose url_string clock cluster surroundings
      cluster-ReadsBack [] post new_jti_cache before 200 accepted

-- A request without an authorization
abbrev pub stranger : Incoming
stranger = record post { header = [] }

unauthorized_changes_nothing_example :
    ((serve lib jx verifier auth post_jose url_string clock cluster surroundings [] stranger
        new_jti_cache before).2
      ≡ before)
    ⊎ ((sctx : Context) × (group : Option String) × (u : User) × IsAuthorized lib jx verifier auth
          post_jose url_string clock cluster surroundings [] stranger new_jti_cache sctx group u)
unauthorized_changes_nothing_example =
    unauthorized_changes_nothing lib jx verifier auth post_jose url_string clock cluster
      surroundings [] stranger new_jti_cache before

onboarded :
    (use_case lib jx verifier auth post_jose url_string clock cluster surroundings of_alice
      (Controller.request_of
        (use_case lib jx verifier auth post_jose url_string clock cluster surroundings)
        alice
        (some "g"))
      before).0
    ≡ ok tt
unfolding Usecase.onboard Adapter.create_namespace get_namespace_annotations
    Adapter.apply_resource_quotas Adapter.convert_quota_to_resource_map get_quota
onboarded = refl

authorized_is_answered_example :
    (serve lib jx verifier auth post_jose url_string clock cluster surroundings [] post
      new_jti_cache before).0
    ≡ written 200
authorized_is_answered_example =
    authorized_is_answered lib jx verifier auth post_jose url_string clock cluster surroundings []
      post new_jti_cache before of_alice (some "g") alice alice-IsAuthorized onboarded
