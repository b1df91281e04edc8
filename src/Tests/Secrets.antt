-- ===== src/Tests/Secrets.antt =====
-- A client with one secret, and the secret of a release on it.
use onyxia_backend.Common.{
  String, ◌≡◌, refl, Option, none, some, [], ◌∷◌, Dict, status, not_found, already_exists, Result,
  ok, err, arith, eq_iff, ◌==◌, if◌then◌else◌,
}
use onyxia_backend.Services.Secrets.{
  Secret, SecretClient, attempt, ensure_onyxia_secret, read_onyxia_secret_data,
  delete_onyxia_secret,
}
use onyxia_backend.Services.Secrets.Stored.{Stores, IsMissing, once, read-ensure, read-delete}

abbrev found : String → Option (Secret Unit) → Result (Secret Unit)
found n none = err (status not_found)
found n (some x) = if x.name == n then ok x else err (status not_found)

abbrev created : Secret Unit → Option (Secret Unit) → Result (Unit {0}) × Option (Secret Unit)
created x none = (ok tt, some x)
created x (some y) = (err (status already_exists), some y)

abbrev pub client : SecretClient
client = record {
  Rest = Unit;
  no_rest = tt;
  State = Option (Secret Unit);
  create = λ ns x s. created x s;
  get = λ ns n s. (found n s, s);
  update = λ ns x s. (ok tt, some x);
  delete = λ ns n s. (ok tt, none);
  retry_on_conflict = λ f s. f s;
}

found_again : (x : Secret Unit) → found x.name (some x) ≡ ok x
found_again x = ground (arith, eq_iff x.name x.name)

created_again :
    (x : Secret Unit) (s : Option (Secret Unit))
    → (created x s).0 ≡ ok tt
    → found x.name (created x s).1 ≡ ok x
created_again x none h = found_again x
created_again x (some y) h = ground arith

found_named :
    (n : String) (s : Option (Secret Unit)) (x : Secret Unit) → found n s ≡ ok x → x.name ≡ n
found_named n none x h = ground arith
found_named n (some y) x h = ground (arith, eq_iff y.name n)

deleted_again :
    (n : String) (o : Result (Unit {0}) × Option (Secret Unit))
    → o.1 ≡ none
    → IsMissing (found n o.1)
deleted_again n o h = (status not_found, ground arith, refl)

client-Stores : Stores client
client-Stores = record {
  deleted = λ ns n s h. deleted_again n (ok tt, none) refl;
  not_deleted = λ ns n s e h k. deleted_again n (ok tt, none) refl;
  created = λ ns x s h. created_again x s h;
  updated = λ ns x s h. found_again x;
  named = λ ns n s x h. found_named n s x h;
  retried = λ f s. once s;
}

abbrev contents : Dict String
contents = ("owner", "a") ∷ []

abbrev before : Option (Secret Unit)
before = (ensure_onyxia_secret client "n" "r" none none).1

ensured : (ensure_onyxia_secret client "n" "r" (some contents) before).0 ≡ ok tt
unfolding ensure_onyxia_secret attempt
ensured = refl

read-ensure_example :
    (read_onyxia_secret_data client "n" "r"
      (ensure_onyxia_secret client "n" "r" (some contents) before).1).0
    ≡ ok contents
read-ensure_example = read-ensure client client-Stores "n" "r" (some contents) before ensured

deleted : (delete_onyxia_secret client "n" "r" before).0 ≡ ok tt
unfolding delete_onyxia_secret
deleted = refl

read-delete_example :
    IsMissing
      ((read_onyxia_secret_data client "n" "r" (delete_onyxia_secret client "n" "r" before).1).0)
read-delete_example = read-delete client client-Stores "n" "r" before deleted
