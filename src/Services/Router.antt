-- ===== src/Services/Router.antt =====
-- services/api/oas/oas_router_gen.go: the routes of the services API
pub mod Paths
pub mod Sound
pub mod Complete
pub mod Installed
pub mod Exact
use onyxia_backend.Common.{
  String, ◌≡◌, Bool, true, false, Option, none, some, List, [], ◌∷◌, ◌==◌, if◌then◌else◌,
}
use onyxia_backend.Common.Text.{after_prefix, segment}

-- The operations, with the arguments that the router takes from the path
pub data Operation : Type 0 where
  get_my_catalogs : Operation
  get_my_package : (catalog_id package_name : String) → Operation
  watch_release watch_resources : (release_id : String) → Operation
  get_package_schema : (catalog_id package_name version : String) → Operation
  install_service : (release_id : String) → Operation

-- A call of the handler of an operation, or of `notAllowed` with the method that is allowed
pub data Route : Type 0 where
  handle : Operation → Route
  not_allowed : (allowed_methods : String) → Route

-- A leaf of the tree
unfoldable pub leaf : (allowed method : String) → Operation → Option Route
leaf allowed method op = some (if method == allowed then handle op else not_allowed allowed)

-- A leaf that nothing may follow
unfoldable pub last : (allowed method : String) → Operation → (elem : String) → Option Route
unfolding leaf
last allowed method op elem = if elem == "" then leaf allowed method op else none

-- A leaf parameter, in which slashes are prohibited
unfoldable pub last_param :
    (method : String) → (String → Operation) → (elem : String) → Option Route
unfolding leaf segment
last_param method op elem = if (segment elem).1 == "" then leaf "GET" method (op elem) else none

-- The branch "/" below "catalogs"
unfoldable pub package_route : (method elem : String) → Option Route
unfolding after_prefix segment last_param
package_route method elem = elim (after_prefix "/" elem) [
  | none ↦ none
  | some rest ↦
      let (catalog_id, below) = segment rest in
      elim (after_prefix "/packages/" below) [
        | none ↦ none
        | some name ↦ last_param method (λ n. get_my_package catalog_id n) name
      ]
]

unfoldable pub catalogs_route : (method elem : String) → Option Route
unfolding after_prefix leaf package_route
catalogs_route method elem = elim (after_prefix "catalogs" elem) [
  | none ↦ none
  | some rest ↦
      let below = package_route method rest in
      if rest == "" then leaf "GET" method get_my_catalogs else below
]

-- The branches "lease" and "sources" below "/watch-re"
unfoldable pub watch_route : (method release_id elem : String) → Option Route
unfolding after_prefix last
watch_route method release_id elem = elim (after_prefix "lease" elem) [
  | some rest ↦ last "GET" method (watch_release release_id) rest
  | none ↦ elim (after_prefix "sources" elem) [
    | some rest ↦ last "GET" method (watch_resources release_id) rest
    | none ↦ none
  ]
]

-- What is left of the path when a branch with a parameter behind its prefix has not returned: nothing
-- when the parameter is the last part of the path (the branch is then left before it puts the path
-- back), else the path
unfoldable pub left : (prefix elem : String) → String
unfolding after_prefix segment
left prefix elem = elim (after_prefix prefix elem) [
  | none ↦ elem
  | some rest ↦ if (segment rest).1 == "" then "" else elem
]

-- What the branch "events/" calls
unfoldable pub events_found : (method elem : String) → Option Route
unfolding after_prefix segment watch_route
events_found method elem = elim (after_prefix "events/" elem) [
  | none ↦ none
  | some rest ↦
      let (release_id, below) = segment rest in
      elim (after_prefix "/watch-re" below) [
        | none ↦ none
        | some rest' ↦ watch_route method release_id rest'
      ]
]

-- The branch "events/": what it calls, and what it leaves of the path when it calls nothing
unfoldable pub events_route : (method elem : String) → Option Route × String
unfolding events_found left
events_route method elem = (events_found method elem, left "events/" elem)

unfoldable pub version_route : (method catalog_id elem : String) → Option Route
unfolding after_prefix segment last_param
version_route method catalog_id elem =
    let (name, below) = segment elem in
    elim (after_prefix "/versions/" below) [
      | none ↦ none
      | some version ↦ last_param method (λ v. get_package_schema catalog_id name v) version
    ]

-- What the branch "schemas/" calls
unfoldable pub schemas_found : (method elem : String) → Option Route
unfolding after_prefix segment version_route
schemas_found method elem = elim (after_prefix "schemas/" elem) [
  | none ↦ none
  | some rest ↦
      let (catalog_id, below) = segment rest in
      elim (after_prefix "/packageName/" below) [
        | none ↦ none
        | some rest' ↦ version_route method catalog_id rest'
      ]
]

unfoldable pub schemas_route : (method elem : String) → Option Route × String
unfolding schemas_found left
schemas_route method elem = (schemas_found method elem, left "schemas/" elem)

-- The parameter `releaseId`, which is tried on what is left when no static branch has returned
unfoldable pub install_route : (method elem : String) → Option Route
unfolding after_prefix segment last
install_route method elem =
    let (release_id, below) = segment elem in
    elim (after_prefix "/install" below) [
      | none ↦ none
      | some rest ↦ last "PUT" method (install_service release_id) rest
    ]

abbrev or_else : Option Route → Option Route → Option Route
or_else (some r) other = some r
or_else none other = other

-- `ServeHTTP`, from the path without its prefix on; `none` is the answer `notFound`.
unfoldable pub route : (method elem : String) → Option Route
unfolding after_prefix catalogs_route events_route schemas_route install_route
route method elem = elim (after_prefix "/api/services/" elem) [
  | none ↦ none
  | some rest ↦
      let (events, rest') = events_route method rest in
      let (schemas, rest'') = schemas_route method rest' in
      or_else (catalogs_route method rest)
        (or_else events (or_else schemas (install_route method rest'')))
]
