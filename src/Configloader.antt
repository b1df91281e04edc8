-- ===== src/Configloader.antt =====
-- internal/configloader/configloader.go: the values of a configuration, from the defaults, a file and
-- the environment. Keys are upper-cased as ASCII texts, which the keys of the configurations are.
pub mod Precedence
use Prim.Native.Char.{Char, code}
use Prim.Native.String
use onyxia_backend.Common.{
  String, Bool, Option, none, some, List, [], ◌∷◌, ◌==◌, ◌&&◌, if◌then◌else◌, Error, wrapf,
  wrapping, Result, ok, err,
}
use onyxia_backend.Common.Text.{same}

-- The character that stands in `to` where `c` stands in `from`, else `c`
translate : (from to : String) → Char → Char
translate (String.◌∷◌ c from) (String.◌∷◌ d to) x =
    if same (code c) (code x) then d else translate from to x
translate _ _ x = x

-- `strings.NewReplacer(".", "_", "::", "_").Replace`
replace_key : String → String
unfolding translate
replace_key String.[] = String.[]
replace_key (String.◌∷◌ c String.[]) = String.◌∷◌ (translate "." "_" c) String.[]
replace_key (String.◌∷◌ c (String.◌∷◌ d s)) =
    let rest = replace_key (String.◌∷◌ d s) in
    let after = replace_key s in
    if same (code c) b':' && same (code d) b':'
    then String.◌∷◌ (translate ":" "_" c) after
    else String.◌∷◌ (translate "." "_" c) rest

-- `strings.ToUpper`
to_upper : String → String
unfolding translate
to_upper String.[] = String.[]
to_upper (String.◌∷◌ c s) =
    String.◌∷◌ (translate "abcdefghijklmnopqrstuvwxyz" "ABCDEFGHIJKLMNOPQRSTUVWXYZ" c) (to_upper s)

-- The name of the variable for a key
unfoldable pub env_key : String → String
unfolding replace_key to_upper
env_key key = to_upper (replace_key key)

-- What the code takes from viper and os; `unmarshal` is that into the type `Config`. A file that is
-- not merged may have changed the state all the same.
pub record Viper : Type 1 where
  pub State : Type 0
  pub Config : Type 0
  pub fresh : State
  pub read_config : (yaml : String) → State → Result State
  pub merge_in_config : (file : String) → State → Result (Unit {0}) × State
  pub automatic_env : State → State
  pub all_keys : State → List String
  pub set : (key value : String) → State → State
  pub unmarshal : State → Result Config
  pub lookup_env : String → Option String

module _ (v : Viper) where
  open v use {State, Config}

  -- A file that is not found is only logged.
  abbrev pub merged : (file_path : String) → State → State
  merged file_path s = if file_path == "" then s else (v.merge_in_config file_path s).1

  -- The loop over the keys
  unfoldable pub set_all : List String → State → State
  unfolding env_key
  set_all [] s = s
  set_all (key ∷ keys) s = elim (v.lookup_env (env_key key)) [
    | some value ↦ set_all keys (v.set key value s)
    | none ↦ set_all keys s
  ]

  abbrev pub with_env : State → State
  with_env s = let s' = v.automatic_env s in set_all (v.all_keys s') s'

  -- `Load`
  unfoldable pub load : (defaults file_path : String) → Result Config
  unfolding set_all
  load defaults file_path = elim (v.read_config defaults v.fresh) [
    | err e ↦ err (wrapf "failed to read embedded default config: %w" [] e)
    | ok s ↦
        wrapping "failed to parse environment configuration: %w" []
          (v.unmarshal (with_env (merged file_path s)))
  ]
