-- ===== src/Tests/Installation.antt =====
-- A request to install a service, from the HTTP request to the goroutine of the installation.
use mathlib.Core.Path.{subst}
use onyxia_backend.Common.{
  suc, insert, String, ◌≡◌, ◌↔◌, ◌⊎◌, refl, Bool, true, none, some, List, [], ◌∷◌, Dict, errorf,
  Result, ok, err, arith, Result-cases, inl, inr,
}
use onyxia_backend.Common.Any.{str}
use onyxia_backend.Common.Int.{pos}
use onyxia_backend.Common.Text.{equal_fold, cut}
use onyxia_backend.Dpop.Jti.{new_jti_cache, seen}
use onyxia_backend.Dpop.Verify
use onyxia_backend.Dpop.Verify.{Jose, verified_claims, bound_key}
use onyxia_backend.Oidc.Claims.{validate_audience, extract_claim}
use onyxia_backend.Oidc.Verify.{
  apply_user_context, token_info, verify_token, check_binding, verify_request,
}
use onyxia_backend.Server.{Incoming, written}
use onyxia_backend.Server.Body.{Jx}
use onyxia_backend.Services.Catalogs.{PackageRepository}
use onyxia_backend.Services.Secrets.{ensure_onyxia_secret}
use onyxia_backend.Services.Release.{Job, start_install}
use onyxia_backend.Services.Install
use onyxia_backend.Services.System
use onyxia_backend.Services.Server.InstallBody.{
  ServiceInstallRequest, decode_install_service_request,
}
use onyxia_backend.Services.Server.InstallBody.Filled.{OnlyCallsBack, decoded-IsFilled}
use onyxia_backend.Services.Server.Serve.{serve_http}
use onyxia_backend.Services.Server.Whole.{Parts, State, serve}
use onyxia_backend.Services.Server.Whole.Outcomes.{IsInstallation, Starts, StartsNothing}
use onyxia_backend.Services.Server.Whole.Installation.{serve_cases, accepted_iff}
use onyxia_backend.Tests.Fixtures.{jose, url_string, verifier, auth, clock, site}
use onyxia_backend.Tests.Services.{whole, latest, empty_repository, nothing_known}
use onyxia_backend.Tests.Secrets.{client}
use onyxia_backend.Tests.Helm.{installer}
use onyxia_backend.Tests.Server.{lib, post}

-- A decoder that takes every body for an object with these fields, whose values are all the body
abbrev calls :
    {S : Type 0}
    → List String
    → (String → S → String → Result (S × String))
    → S
    → String
    → Result (S × String)
calls [] f s d = ok (s, d)
calls (k ∷ ks) f s d = elim (f k s d) [ ok (s', d') ↦ calls ks f s' d' | err e ↦ err e ]

abbrev fields : List String
fields = "catalogId" ∷ "packageName" ∷ "options" ∷ "name" ∷ "share" ∷ []

abbrev jx : Jx
jx = record {
  Decoder = String;
  decode_bytes = λ s. s;
  obj_bytes = λ f s d. calls fields f s d;
  str = λ d. ok (d, d);
  bool = λ d. ok (true, d);
  raw_append = λ d. ok (d, d);
  skip = λ d. err (errorf "EOF" []);
  is_eof = λ e. true;
}

calls_keep :
    {S : Type 0} (ks : List String) (f : String → S → String → Result (S × String)) (P : S → Type 0)
    → ((k : String) (s s' : S) (d d' : String) → P s → f k s d ≡ ok (s', d') → P s')
    → (s s' : S) (d d' : String) → P s
    → calls ks f s d ≡ ok (s', d')
    → P s'
calls_keep [] f P step s s' d d' p h = subst P (ground arith) p
calls_keep (k ∷ ks) f P step s s' d d' p h = elim (Result-cases (f k s d)) [
  | inl ((s1, d1), e) ↦ calls_keep ks f P step s1 s' d1 d' (step k s s1 d d1 p e) (ground arith)
  | inr (x, e) ↦ ground arith
]

jx-OnlyCallsBack : OnlyCallsBack jx
jx-OnlyCallsBack = record {
  keeps = λ f P step s s' d d' p h. calls_keep fields f P step s s' d d' p h;
}

abbrev put_jose : Jose
put_jose = record jose {
  claims = λ t k.
      ok (record { htm = "PUT"; htu = "https://h/p"; iat = pos 1000; jti = t; ath = "hash" });
}

abbrev put : Incoming
put = record post {
  method = "PUT";
  url = record site { path = "/api/services/r/install" };
  body = ok "ide";
}

abbrev ide_body : ServiceInstallRequest
ide_body = record {
  catalog_id = "ide";
  package_name = "ide";
  package_version = none;
  version = none;
  options = some (
      ("catalogId", "ide")
      ∷ ("packageName", "ide")
      ∷ ("options", "ide")
      ∷ ("name", "ide")
      ∷ ("share", "ide")
      ∷ []);
  share = some true;
  friendly_name = none;
  name = "ide";
}

body_decoded : decode_install_service_request jx lib put ≡ inl ide_body
unfolding decode_install_service_request insert
body_decoded = refl

decoded-IsFilled_example :
    ((b : Bool) × (ide_body.share ≡ some b)) × ((m : Dict String) × (ide_body.options ≡ some m))
decoded-IsFilled_example = decoded-IsFilled lib jx jx-OnlyCallsBack put ide_body body_decoded

-- Every version of every package is there.
abbrev full_repository : PackageRepository
full_repository = record empty_repository {
  resolve_package =
      λ i p v n. (ok (record { pkg = nothing_known; version = v; repo_url = "https://h" }), suc n);
}

abbrev parts : Parts
parts = record {
  lib = lib;
  jx = jx;
  verifier = verifier;
  auth = auth;
  jose = put_jose;
  url_string = url_string;
  clock = clock;
  re = whole;
  repo = full_repository;
  client = client;
  installer = installer;
  cfgs = latest ∷ [];
  unmarshal = λ s. ok (str s);
  unmarshal_object = λ s. ok [];
}

abbrev idle : State parts
idle = record {
  catalogs = 0;
  system = record { packages = 0; secrets = none; releases = 0; jobs = [] };
}

accepted : (serve parts [] put new_jti_cache idle).0 ≡ written 202
unfolding serve_http verify_request verify_token validate_audience extract_claim token_info
    check_binding Verify.verify_proof verified_claims bound_key seen equal_fold cut
    apply_user_context Install.install_service Install.start ensure_onyxia_secret System.launch
    start_install
accepted = refl

serve_cases_example :
    ((job : Job Unit) × Starts parts [] put new_jti_cache idle job)
    ⊎ StartsNothing parts [] put new_jti_cache idle
serve_cases_example = serve_cases parts [] put new_jti_cache idle

accepted_iff_example :
    ((serve parts [] put new_jti_cache idle).0 ≡ written 202)
    ↔ ((job : Job Unit) × IsInstallation parts [] put new_jti_cache idle job)
accepted_iff_example = accepted_iff parts [] put new_jti_cache idle refl
