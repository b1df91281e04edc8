-- ===== src/Tests/Configloader.antt =====
-- A configuration with one variable in the environment.
use onyxia_backend.Common.{
  String, ◌≡◌, refl, true, arith, eq_iff, contains, List, none, some, [], ◌∷◌, Dict, lookup, insert,
  lookup-insert, map, ◌==◌, if◌then◌else◌, ok, err, errorf,
}
use onyxia_backend.Configloader.{env_key, Viper, merged, with_env, load}
use onyxia_backend.Configloader.Precedence.{KeepsValues, load-overridden}

named : env_key "quota::requests.cpu" ≡ "QUOTA_REQUESTS_CPU"
unfolding env_key
named = refl

abbrev keys_of : Dict String → List String
keys_of s = map (λ (e : String × String). e.0) s

abbrev viper : Viper
viper = record {
  State = Dict String;
  Config = Dict String;
  fresh = [];
  read_config = λ yaml s. ok (("quota::requests.cpu", "100m") ∷ ("quota::count/pods", "1") ∷ s);
  merge_in_config = λ file s. (err (errorf "no file" []), s);
  automatic_env = λ s. s;
  all_keys = λ s. keys_of s;
  set = λ key value s. insert key value s;
  unmarshal = λ s. ok s;
  lookup_env = λ name. if name == "QUOTA_REQUESTS_CPU" then some "999m" else none;
}

listed_after_insert :
    (key value other : String) (s : Dict String)
    → contains (keys_of s) key ≡ true
    → contains (keys_of (insert key value s)) other ≡ contains (keys_of s) other
unfolding insert
listed_after_insert key value other [] h = ground arith
listed_after_insert key value other (e ∷ s) h = ground (
  arith,
  eq_iff e.0 key,
  eq_iff key other,
  eq_iff e.0 other,
  listed_after_insert key value other s,
)

viper-KeepsValues : KeepsValues viper
viper-KeepsValues = record {
  Value = String;
  text = λ s. s;
  get = λ s key. lookup key s;
  get_set = λ key value other s h k. lookup-insert key other value s;
  keys_set = λ key value other s h. listed_after_insert key value other s h;
}

abbrev config : Dict String
config = ("quota::requests.cpu", "999m") ∷ ("quota::count/pods", "1") ∷ []

loaded : load viper "" "env.yaml" ≡ ok config
unfolding load env_key insert
loaded = refl

load-overridden_example :
    (s : Dict String) × (viper.read_config "" viper.fresh ≡ ok s)
    × (viper.unmarshal (with_env viper (merged viper "env.yaml" s)) ≡ ok config)
    × ((key : String)
        → contains (viper.all_keys (with_env viper (merged viper "env.yaml" s))) key
          ≡ contains (viper.all_keys (viper.automatic_env (merged viper "env.yaml" s))) key)
    × ((key : String)
        → contains (viper.all_keys (viper.automatic_env (merged viper "env.yaml" s))) key ≡ true
        → ((value : String)
            → viper.lookup_env (env_key key) ≡ some value
            → viper-KeepsValues.get (with_env viper (merged viper "env.yaml" s)) key
              ≡ some (viper-KeepsValues.text value))
          × (viper.lookup_env (env_key key) ≡ none
              → viper-KeepsValues.get (with_env viper (merged viper "env.yaml" s)) key
                ≡ viper-KeepsValues.get (viper.automatic_env (merged viper "env.yaml" s)) key))
load-overridden_example = load-overridden viper viper-KeepsValues "" "env.yaml" config loaded
