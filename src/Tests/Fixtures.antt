-- ===== src/Tests/Fixtures.antt =====
-- A signature library, a token verifier and a cluster that are small enough to run.
use onyxia_backend.Common.{
  String, true, Option, none, some, [], ◌∷◌, ◌==◌, if◌then◌else◌, status, not_found, Result, ok,
  err, errorf, ◌≡◌, refl, arith, eq_iff, eq_refl, ap,
}
use onyxia_backend.Common.Any.{str, obj, arr, field, end, cons, nil}
use onyxia_backend.Common.Int.{pos}
use onyxia_backend.Dpop.Request.{Url, Request}
use onyxia_backend.Dpop.Verify.{Jose}
use onyxia_backend.Oidc.Claims.{Claims}
use onyxia_backend.Oidc.Verify.{TokenVerifier, Auth, Clock}
use onyxia_backend.Onboarding.Adapter.{Cluster, ResourceQuota}
use onyxia_backend.Onboarding.Adapter.Calls.{ReadsBack}

abbrev pub site : Url
site = record { scheme = "https"; host = "h"; path = "/p"; raw_query = ""; fragment = "" }

-- A proof is its own identifier, issued at the second 1000 by the key `k`.
abbrev pub jose : Jose
jose = record {
  Token = String;
  Key = String;
  parse_signed = λ p. ok p;
  headers = λ t. record { jwk = some "k"; typ = some (str "dpop+jwt") } ∷ [];
  is_public = λ k. true;
  claims = λ t k.
      ok (record { htm = "GET"; htu = "https://h/p"; iat = pos 1000; jti = t; ath = "hash" });
  thumbprint = λ k. ok k;
  access_token_hash = λ t. "hash";
  parse_url = λ s. ok site;
}

abbrev pub url_string : Url → String
url_string u = "https://h/p"

abbrev pub claims : Claims
claims =
    ("sub", str "alice")
    ∷ ("groups", arr (cons (str "g") nil))
    ∷ ("aud", str "onyxia")
    ∷ ("mail", str "a@b")
    ∷ ("cnf", obj (field "jkt" (str "k") end))
    ∷ []

abbrev pub verifier : TokenVerifier
verifier = record { IdToken = String; verify = λ t. ok t; claims = λ t. ok claims }

abbrev pub auth : Auth
auth = record {
  username_claim = "sub";
  groups_claim = "groups";
  roles_claim = "roles";
  audience = "onyxia";
}

abbrev pub request : Request
request = record {
  method = "GET";
  url = some site;
  header = ("Authorization", "DPoP t" ∷ []) ∷ ("Dpop", "proof" ∷ []) ∷ [];
  host = "h";
  tls = true;
}

abbrev pub bearer_request : Request
bearer_request = record request { header = ("Authorization", "Bearer t" ∷ []) ∷ [] }

-- The second 1010
abbrev pub clock : Clock
clock = record { now = 1010000000000; evicted_at = 1010000000000; recorded_at = 1010000000001 }

abbrev pub found : String → Option (ResourceQuota String) → Result (ResourceQuota String)
found name none = err (status not_found)
found name (some q) = if q.name == name then ok q else err (status not_found)

-- A cluster with one quota object, without annotations when it is created. A quantity is its text,
-- and the text "x" does not parse.
abbrev pub cluster : Cluster
cluster = record {
  Quantity = String;
  parse_quantity = λ s. if s == "x" then err (errorf "bad quantity" []) else ok s;
  equal = λ a b. a == b;
  Patch = Unit {0};
  marshal = λ a l. ok tt;
  State = Option (ResourceQuota String);
  create_namespace_object = λ o s. (ok tt, s);
  patch_namespace = λ n p s. (ok tt, s);
  get_quota = λ ns n s. (found n s, s);
  create_quota = λ ns q s. (ok tt, some q);
  update_quota = λ ns q s. (ok tt, some q);
}

reads_named :
    (n : String) (s : Option (ResourceQuota String)) (q : ResourceQuota String)
    → found n s ≡ ok q
    → q.name ≡ n
reads_named n none q h = cc
reads_named n (some p) q h = ground (arith, eq_iff p.name n)

found_again : (q : ResourceQuota String) → found q.name (some q) ≡ ok q
found_again q = ground (arith, eq_iff q.name q.name)

pub cluster-ReadsBack : ReadsBack cluster
cluster-ReadsBack = record {
  reads = λ ns n s. refl;
  named = λ ns n s q h. reads_named n s q h;
  created = λ ns q s s' h.
      (q, rw (← ap {B = Option (ResourceQuota String)} (λ x. x.1) h) (found_again q), refl, refl);
  updated = λ ns q s s' h.
      (q, rw (← ap {B = Option (ResourceQuota String)} (λ x. x.1) h) (found_again q), refl, refl);
  equal_refl = λ x. eq_refl x;
}
