-- ===== src/Configloader/Precedence.antt =====
-- Where the value of a key comes from.
use onyxia_backend.Common.{
  String, ◌≡◌, ◌∙◌, true, inl, inr, refl, Option, none, some, List, [], ◌∷◌, contains, ◌==◌, eq_iff,
  if◌then◌else◌, ok, arith, Result-cases, Option-cases,
}
use onyxia_backend.Configloader.{env_key, Viper, merged, set_all, with_env, load}

-- What viper documents of the keys that it lists, which are in lower case and name no table of others:
-- the text that is set for one is then its value, the others keep theirs, and the same keys are listed.
-- Of other keys, as a table that a listed key stands in, nothing is said.
pub record KeepsValues (v : Viper) : Type 1 where
  pub Value : Type 0
  pub text : String → Value
  pub get : v.State → String → Option Value
  pub get_set :
      (key value other : String) (s : v.State)
      → contains (v.all_keys s) key ≡ true
      → contains (v.all_keys s) other ≡ true
      → get (v.set key value s) other ≡ (if key == other then some (text value) else get s other)
  pub keys_set :
      (key value other : String) (s : v.State)
      → contains (v.all_keys s) key ≡ true
      → contains (v.all_keys (v.set key value s)) other ≡ contains (v.all_keys s) other

module _ (v : Viper) (laws : KeepsValues v) where
  -- The value of a key that is in `keys` is that of its variable, if this is set.
  overridden : List String → (key : String) → Option laws.Value → Option laws.Value
  overridden keys key value =
      if contains keys key
      then (elim (v.lookup_env (env_key key)) [ none ↦ value | some x ↦ some (laws.text x) ])
      else value

  abbrev AreListed : List String → v.State → Type 0
  AreListed keys s = (k : String) → contains keys k ≡ true → contains (v.all_keys s) k ≡ true

  get-set_all :
      (keys : List String) (key : String) (s : v.State)
      → AreListed keys s
      → contains (v.all_keys s) key ≡ true
      → laws.get (set_all v keys s) key ≡ overridden keys key (laws.get s key)
  unfolding set_all overridden
  get-set_all [] key s listed h = refl
  get-set_all (k ∷ keys) key s listed h =
      let here = listed k (ground (arith, eq_iff k k)) in
      let others : AreListed keys s = λ x hx. listed x (ground (arith, eq_iff k x)) in
      elim (Option-cases (v.lookup_env (env_key k))) [
        | inl e ↦ ground (arith, eq_iff k key, get-set_all keys key s others h)
        | inr (value, e) ↦
            let rest =
              get-set_all keys key (v.set k value s)
                (λ x hx. laws.keys_set k value x s here ∙ others x hx)
                (laws.keys_set k value key s here ∙ h) in
            ground (arith, eq_iff k key, rest, laws.get_set k value key s here h)
      ]

  all_keys-set_all :
      (keys : List String) (other : String) (s : v.State)
      → AreListed keys s
      → contains (v.all_keys (set_all v keys s)) other ≡ contains (v.all_keys s) other
  unfolding set_all
  all_keys-set_all [] other s listed = refl
  all_keys-set_all (k ∷ keys) other s listed =
      let here = listed k (ground (arith, eq_iff k k)) in
      let others : AreListed keys s = λ x hx. listed x (ground (arith, eq_iff k x)) in
      elim (Option-cases (v.lookup_env (env_key k))) [
        | inl e ↦ ground (arith, all_keys-set_all keys other s others)
        | inr (value, e) ↦
            let rest =
              all_keys-set_all keys other (v.set k value s)
                (λ x hx. laws.keys_set k value x s here ∙ others x hx) in
            ground (arith, rest ∙ laws.keys_set k value other s here)
      ]

  -- A configuration that is loaded is read from the defaults, with the file merged into them, where
  -- each key that is listed for these takes the value of its environment variable, if this is set,
  -- and keeps its own value if it is not; the variables add no key to the list and remove none.
  pub load-overridden :
      (defaults file_path : String) (cfg : v.Config)
      → load v defaults file_path ≡ ok cfg
      → (s : v.State) × (v.read_config defaults v.fresh ≡ ok s)
        × (v.unmarshal (with_env v (merged v file_path s)) ≡ ok cfg)
        × ((key : String)
            → contains (v.all_keys (with_env v (merged v file_path s))) key
              ≡ contains (v.all_keys (v.automatic_env (merged v file_path s))) key)
        × ((key : String)
            → contains (v.all_keys (v.automatic_env (merged v file_path s))) key ≡ true
            → ((value : String)
                → v.lookup_env (env_key key) ≡ some value
                → laws.get (with_env v (merged v file_path s)) key ≡ some (laws.text value))
              × (v.lookup_env (env_key key) ≡ none
                  → laws.get (with_env v (merged v file_path s)) key
                    ≡ laws.get (v.automatic_env (merged v file_path s)) key))
  unfolding load overridden
  load-overridden defaults file_path cfg h = elim (Result-cases (v.read_config defaults v.fresh)) [
    | inr (e, r) ↦ ground arith
    | inl (s, r) ↦
        let before = v.automatic_env (merged v file_path s) in
        elim (Result-cases (v.unmarshal (with_env v (merged v file_path s)))) [
          | inr (e, u) ↦ ground arith
          | inl (c, u) ↦ (
            s,
            r,
            ground arith,
            λ key. all_keys-set_all (v.all_keys before) key before (λ k hk. hk),
            λ key listed.
                let found = get-set_all (v.all_keys before) key before (λ k hk. hk) listed in
                (λ value e. ground (arith, found), λ e. ground (arith, found)),
          )
        ]
  ]
