-- ===== src/Services/Router/Exact.antt =====
-- The router is exact: the handler of an operation is reached by its method and its path alone, and
-- always by these, but for the installation of a release with the name of a branch.
use text.Mathlib.TextLemmas.{append_assoc}
use onyxia_backend.Common.{String, ◌≡◌, ◌↔◌, refl, ap, ◌∙◌, some}
use onyxia_backend.Common.Text.{
  ◌++◌, after_prefix, append-after_prefix, after_prefix-differs, segment-path,
}
use onyxia_backend.Services.Router.{
  Operation, get_my_catalogs, get_my_package, watch_release, watch_resources, get_package_schema,
  install_service, handle, catalogs_route, watch_route, route,
}
use onyxia_backend.Services.Router.Paths.{method_of, path_of, IsSegment, HasSegments, IsReached}
use onyxia_backend.Services.Router.Sound.{route-handle}
use onyxia_backend.Services.Router.Installed.{install-routed}
use onyxia_backend.Services.Router.Complete.{
  leaf_lem, package-routed, watch_route-release, watch_route-resources, events_found_lem,
  version_route_lem, schemas_found_lem, route_lem, catalogs_route-none, events_found-none,
  after_slash, left-none,
}

-- A watched part of a release
watch-routed :
    (i part : String) (op : Operation)
    → IsSegment i
    → after_prefix "/watch-re" ("/" ++ ("watch-re" ++ part)) ≡ some part
    → watch_route "GET" i part ≡ some (handle op)
    → route "GET" ("/api/services/events/" ++ (i ++ ("/" ++ ("watch-re" ++ part))))
      ≡ some (handle op)
watch-routed i part op is_i found watched =
    let t = i ++ ("/" ++ ("watch-re" ++ part)) in
    let none_before =
      catalogs_route-none "GET" ("events/" ++ t)
        (after_prefix-differs "catalogs" "events/" t refl) in
    let here =
      events_found_lem ("events/" ++ t) t i ("/" ++ ("watch-re" ++ part)) part _
        (append-after_prefix "events/" t) (segment-path i ("watch-re" ++ part) is_i) found
        watched in
    ap (route "GET") (append_assoc "/api/services/" "events/" t)
    ∙ route_lem "GET" _ _ _ (append-after_prefix "/api/services/" ("events/" ++ t))
        (rw (none_before, here) refl)

schema-routed :
    (c p v : String)
    → IsSegment c
    → IsSegment p
    → IsSegment v
    → route "GET" (path_of (get_package_schema c p v)) ≡ some (handle (get_package_schema c p v))
schema-routed c p v is_c is_p is_v =
    let u = p ++ ("/" ++ ("versions/" ++ v)) in
    let t = c ++ ("/" ++ ("packageName/" ++ u)) in
    let parts : path_of (get_package_schema c p v) ≡ "/api/services/" ++ ("schemas/" ++ t) =
      ap (λ x. "/api/services/schemas/" ++ (c ++ ("/packageName/" ++ (p ++ x))))
        (append_assoc "/" "versions/" v)
      ∙ ap (λ x. "/api/services/schemas/" ++ (c ++ x)) (append_assoc "/" "packageName/" u)
      ∙ append_assoc "/api/services/" "schemas/" t in
    let no_catalog =
      catalogs_route-none "GET" ("schemas/" ++ t)
        (after_prefix-differs "catalogs" "schemas/" t refl) in
    let differs = after_prefix-differs "events/" "schemas/" t refl in
    let no_event = events_found-none "GET" ("schemas/" ++ t) differs in
    let whole = left-none "events/" ("schemas/" ++ t) differs in
    let below =
      version_route_lem c u p ("/" ++ ("versions/" ++ v)) v (segment-path p ("versions/" ++ v) is_p)
        (after_slash "versions/" v) is_v in
    let here =
      schemas_found_lem ("schemas/" ++ t) t c ("/" ++ ("packageName/" ++ u)) u _
        (append-after_prefix "schemas/" t) (segment-path c ("packageName/" ++ u) is_c)
        (after_slash "packageName/" u) below in
    ap (route "GET") parts
    ∙ route_lem "GET" _ _ _ (append-after_prefix "/api/services/" ("schemas/" ++ t))
        (rw (no_catalog, no_event, whole, here) refl)

-- The path of every operation is routed to it.
path-routed :
    (op : Operation)
    → HasSegments op
    → IsReached op
    → route (method_of op) (path_of op) ≡ some (handle op)
unfolding route catalogs_route after_prefix
path-routed get_my_catalogs h k = leaf_lem "GET" get_my_catalogs
path-routed (get_my_package c p) h k = package-routed c p h.0 h.1
path-routed (watch_release r) h k =
    watch-routed r "lease" (watch_release r) h refl (watch_route-release r)
path-routed (watch_resources r) h k =
    watch-routed r "sources" (watch_resources r) h refl (watch_route-resources r)
path-routed (get_package_schema c p v) h k = schema-routed c p v h.0 h.1 h.2
path-routed (install_service r) h k = install-routed r h k

-- The handler of an operation is called for a request exactly if the request has the method of that
-- operation and its path in the document of the API, in which the arguments are the segments that
-- stand for its parameters; so two operations never meet at one request. The one exception is the
-- installation of a release that is called "events" or "schemas": its path leads nowhere.
pub route_iff :
    (method elem : String) (op : Operation)
    → (route method elem ≡ some (handle op))
      ↔ ((method ≡ method_of op) × (elem ≡ path_of op) × HasSegments op × IsReached op)
route_iff method elem op =
    (route-handle method elem op, λ (m, e, h, k). rw (m, e) (path-routed op h k))
