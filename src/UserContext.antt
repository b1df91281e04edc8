-- ===== src/UserContext.antt =====
-- internal/usercontext and internal/auth/oidc/context.go: the values that a request's context
-- carries. A context is the chain of the values put into it, the last one first.
use onyxia_backend.Common.{ℕ, String, Option, none, some, List, [], ◌∷◌, Dict, ◌==◌, if◌then◌else◌}
use onyxia_backend.Common.Any.{Any}

-- `attributes` may be the nil map.
pub record User : Type 0 where
  pub username : String
  pub groups : List String
  pub roles : List String
  pub attributes : Option (Dict Any)

-- A value under `ctxUserKey`, which may be a nil pointer, under `cnfJKTKey`, or under a key of other
-- packages.
pub data Binding : Type 0 where
  user : Option User → Binding
  cnf_jkt : String → Binding
  foreign : ℕ → Binding

abbrev pub Context : Type 0
Context = List Binding

-- `WithUser`
unfoldable pub with_user : Context → Option User → Context
with_user ctx u = user u ∷ ctx

-- `WithCnfJKT`
unfoldable pub with_cnf_jkt : Context → String → Context
with_cnf_jkt ctx jkt = cnf_jkt jkt ∷ ctx

-- `GetUser`: the second result says whether the first is a user, so both are one `Option`.
unfoldable pub get_user : Context → Option User
get_user [] = none
get_user (user u ∷ ctx) = u
get_user (cnf_jkt jkt ∷ ctx) = get_user ctx
get_user (foreign k ∷ ctx) = get_user ctx

abbrev non_empty_text : String → Option String
non_empty_text s = if s == "" then none else some s

abbrev non_empty : List String → Option (List String)
non_empty [] = none
non_empty (s ∷ ss) = some (s ∷ ss)

unfoldable pub get_username : Context → Option String
unfolding get_user
get_username ctx = elim (get_user ctx) [ none ↦ none | some u ↦ non_empty_text u.username ]

unfoldable pub get_groups : Context → Option (List String)
unfolding get_user
get_groups ctx = elim (get_user ctx) [ none ↦ none | some u ↦ non_empty u.groups ]

unfoldable pub get_roles : Context → Option (List String)
unfolding get_user
get_roles ctx = elim (get_user ctx) [ none ↦ none | some u ↦ non_empty u.roles ]

unfoldable pub get_attributes : Context → Option (Dict Any)
unfolding get_user
get_attributes ctx = elim (get_user ctx) [ none ↦ none | some u ↦ u.attributes ]

-- The innermost value under `cnfJKTKey`
bound_jkt : Context → String
bound_jkt [] = ""
bound_jkt (cnf_jkt jkt ∷ ctx) = jkt
bound_jkt (user u ∷ ctx) = bound_jkt ctx
bound_jkt (foreign k ∷ ctx) = bound_jkt ctx

-- `CnfJKTFromContext`
unfoldable pub cnf_jkt_from_context : Context → Option String
unfolding bound_jkt
cnf_jkt_from_context ctx = non_empty_text (bound_jkt ctx)
