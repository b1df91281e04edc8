-- ===== src/Services/Router/Paths.antt =====
-- The routes of the services API are the paths of its operations, and no others.
use onyxia_backend.Common.{
  String, ◌≡◌, inl, inr, ap, ◌∙◌, some, ◌==◌, arith, eq_iff, Bool-cases, ◌≢◌,
}
use onyxia_backend.Common.Text.{◌++◌, after_prefix, segment, after_prefix-append, segment-append}
use onyxia_backend.Services.Router.{
  Operation, get_my_catalogs, get_my_package, watch_release, watch_resources, get_package_schema,
  install_service, handle, leaf, last, last_param,
}

-- The method and the path of each operation in services/openapi.yaml
abbrev pub method_of : Operation → String
method_of (install_service r) = "PUT"
method_of _ = "GET"

abbrev pub path_of : Operation → String
path_of get_my_catalogs = "/api/services/catalogs"
path_of (get_my_package c p) = "/api/services/catalogs/" ++ (c ++ ("/packages/" ++ p))
path_of (watch_release r) = "/api/services/events/" ++ (r ++ "/watch-release")
path_of (watch_resources r) = "/api/services/events/" ++ (r ++ "/watch-resources")
path_of (get_package_schema c p v) =
    "/api/services/schemas/" ++ (c ++ ("/packageName/" ++ (p ++ ("/versions/" ++ v))))
path_of (install_service r) = "/api/services/" ++ (r ++ "/install")

-- A segment of a path
abbrev pub IsSegment : String → Type 0
IsSegment s = (segment s).1 ≡ ""

abbrev pub HasSegments : Operation → Type 0
HasSegments get_my_catalogs = Unit
HasSegments (get_my_package c p) = IsSegment c × IsSegment p
HasSegments (watch_release r) = IsSegment r
HasSegments (watch_resources r) = IsSegment r
HasSegments (get_package_schema c p v) = IsSegment c × IsSegment p × IsSegment v
HasSegments (install_service r) = IsSegment r

-- The branches of the router with a parameter behind their prefix lose a path that ends with the
-- parameter, so that no installation of a release with the name of such a branch is reached.
abbrev pub IsReached : Operation → Type 0
IsReached (install_service r) = (r ≢ "events") × (r ≢ "schemas")
IsReached _ = Unit

-- The method and the path, below "/api/services/", are those of the operation.
pub record IsRouteOf (op : Operation) (method elem : String) : Type 0 where
  pub allowed : method ≡ method_of op
  pub path : "/api/services/" ++ elem ≡ path_of op
  pub segments : HasSegments op

pub leaf-handle :
    (allowed method : String) (op op' : Operation)
    → leaf allowed method op ≡ some (handle op')
    → (method ≡ allowed) × (op ≡ op')
unfolding leaf
leaf-handle allowed method op op' h = elim (Bool-cases (method == allowed)) [
  | inl e ↦ ((eq_iff method allowed).0 e, ground arith)
  | inr e ↦ ground arith
]

pub last-handle :
    (allowed method : String) (op op' : Operation) (elem : String)
    → last allowed method op elem ≡ some (handle op')
    → (elem ≡ "") × (method ≡ allowed) × (op ≡ op')
unfolding last
last-handle allowed method op op' elem h = elim (Bool-cases (elem == "")) [
  | inl e ↦
      let (m, o) = leaf-handle allowed method op op' (ground arith) in ((eq_iff elem "").0 e, m, o)
  | inr e ↦ ground arith
]

pub last_param-handle :
    (method : String) (make : String → Operation) (elem : String) (op : Operation)
    → last_param method make elem ≡ some (handle op)
    → IsSegment elem × (method ≡ "GET") × (make elem ≡ op)
unfolding last_param
last_param-handle method make elem op h = elim (Bool-cases ((segment elem).1 == "")) [
  | inl e ↦
      let (m, o) = leaf-handle "GET" method (make elem) op (ground arith) in
      ((eq_iff (segment elem).1 "").0 e, m, o)
  | inr e ↦ ground arith
]

-- A text that is split into a segment and a known prefix of the rest
pub segment_prefix :
    (p s rest : String)
    → after_prefix p (segment s).1 ≡ some rest
    → s ≡ (segment s).0 ++ (p ++ rest)
segment_prefix p s rest h =
    segment-append s ∙ ap (λ x. (segment s).0 ++ x) (after_prefix-append p (segment s).1 rest h)
