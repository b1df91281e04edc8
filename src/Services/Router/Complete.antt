-- ===== src/Services/Router/Complete.antt =====
-- A request with the method and the path of an operation reaches its handler.
use text.Mathlib.TextLemmas.{append_assoc, cons-append, cons≢nil}
use onyxia_backend.Common.{
  String, ◌≡◌, inl, inr, refl, ap, sym, ◌∙◌, false, none, some, ◌==◌, arith, eq_iff, Bool-cases,
}
use onyxia_backend.Common.Text.{◌++◌, after_prefix, segment, append-after_prefix, segment-path}
use onyxia_backend.Services.Router.{
  Operation, get_my_package, watch_release, watch_resources, get_package_schema, install_service,
  Route, handle, leaf, last, last_param, package_route, catalogs_route, watch_route, events_found,
  version_route, schemas_found, install_route, or_else, route, left,
}
use onyxia_backend.Services.Router.Paths.{path_of, IsSegment}

-- The steps of the router, each on what the step before has left
pub leaf_lem : (m : String) (op : Operation) → leaf m m op ≡ some (handle op)
unfolding leaf
leaf_lem m op = ground (arith, eq_iff m m)

last_lem : (m : String) (op : Operation) → last m m op "" ≡ some (handle op)
unfolding last
last_lem m op = ground (arith, eq_iff "" "", leaf_lem m op)

last_param_lem :
    (make : String → Operation) (e : String)
    → IsSegment e
    → last_param "GET" make e ≡ some (handle (make e))
unfolding last_param
last_param_lem make e h = ground (arith, eq_iff (segment e).1 "", leaf_lem "GET" (make e))

package_route_lem :
    (e rest c below name : String)
    → after_prefix "/" e ≡ some rest
    → segment rest ≡ (c, below)
    → after_prefix "/packages/" below ≡ some name
    → IsSegment name
    → package_route "GET" e ≡ some (handle (get_my_package c name))
unfolding package_route
package_route_lem e rest c below name f g h k =
    ground (arith, last_param_lem (λ n. get_my_package c n) name)

catalogs_route_lem :
    (e rest : String) (r : Route)
    → after_prefix "catalogs" e ≡ some rest
    → (rest == "") ≡ false
    → package_route "GET" rest ≡ some r
    → catalogs_route "GET" e ≡ some r
unfolding catalogs_route
catalogs_route_lem e rest r f g h = ground arith

pub watch_route-release :
    (i : String) → watch_route "GET" i "lease" ≡ some (handle (watch_release i))
unfolding watch_route
watch_route-release i = last_lem "GET" (watch_release i)

pub watch_route-resources :
    (i : String) → watch_route "GET" i "sources" ≡ some (handle (watch_resources i))
unfolding watch_route
watch_route-resources i = last_lem "GET" (watch_resources i)

pub events_found_lem :
    (e rest i below part : String) (r : Route)
    → after_prefix "events/" e ≡ some rest
    → segment rest ≡ (i, below)
    → after_prefix "/watch-re" below ≡ some part
    → watch_route "GET" i part ≡ some r
    → events_found "GET" e ≡ some r
unfolding events_found
events_found_lem e rest i below part r f g h k = ground arith

pub version_route_lem :
    (c e p below v : String)
    → segment e ≡ (p, below)
    → after_prefix "/versions/" below ≡ some v
    → IsSegment v
    → version_route "GET" c e ≡ some (handle (get_package_schema c p v))
unfolding version_route
version_route_lem c e p below v f g h =
    ground (arith, last_param_lem (λ n. get_package_schema c p n) v)

pub schemas_found_lem :
    (e rest c below part : String) (r : Route)
    → after_prefix "schemas/" e ≡ some rest
    → segment rest ≡ (c, below)
    → after_prefix "/packageName/" below ≡ some part
    → version_route "GET" c part ≡ some r
    → schemas_found "GET" e ≡ some r
unfolding schemas_found
schemas_found_lem e rest c below part r f g h k = ground arith

pub install_route_lem :
    (e i below : String)
    → segment e ≡ (i, below)
    → after_prefix "/install" below ≡ some ""
    → install_route "PUT" e ≡ some (handle (install_service i))
unfolding install_route
install_route_lem e i below f g = ground (arith, last_lem "PUT" (install_service i))

module _ (method : String) where
  -- What is tried on a path below "/api/services/"
  pub route_lem :
      (path e : String) (r : Route)
      → after_prefix "/api/services/" path ≡ some e
      → or_else (catalogs_route method e) (
          or_else (events_found method e) (
            or_else
              (schemas_found method (left "events/" e))
              (install_route method (left "schemas/" (left "events/" e)))))
        ≡ some r
      → route method path ≡ some r
  unfolding route
  route_lem path e r f g = ground arith

  pub catalogs_route-none :
      (e : String) → after_prefix "catalogs" e ≡ none → catalogs_route method e ≡ none
  unfolding catalogs_route
  catalogs_route-none e h = ground arith

  pub events_found-none :
      (e : String) → after_prefix "events/" e ≡ none → events_found method e ≡ none
  unfolding events_found
  events_found-none e h = ground arith

-- A path with another beginning is not lost in a branch.
pub left-none : (p e : String) → after_prefix p e ≡ none → left p e ≡ e
unfolding left
left-none p e h = ground arith

-- A path that goes on behind the parameter of a branch is not lost in it.
pub left-some :
    (p e rest : String)
    → after_prefix p e ≡ some rest
    → ((segment rest).1 == "") ≡ false
    → left p e ≡ e
unfolding left
left-some p e rest f g = ground arith

pub slash-append : (t : String) → (("/" ++ t) == "") ≡ false
slash-append t = elim (Bool-cases (("/" ++ t) == "")) [
  | inr e ↦ e
  | inl e ↦ absurd (cons≢nil (sym (cons-append "/" "" t) ∙ (eq_iff ("/" ++ t) "").0 e))
]

-- A known part of a path behind a slash
pub after_slash :
    (part rest : String) → after_prefix ("/" ++ part) ("/" ++ (part ++ rest)) ≡ some rest
after_slash part rest =
    ap (after_prefix ("/" ++ part)) (sym (append_assoc "/" part rest))
    ∙ append-after_prefix ("/" ++ part) rest

pub package-routed :
    (c p : String)
    → IsSegment c
    → IsSegment p
    → route "GET" (path_of (get_my_package c p)) ≡ some (handle (get_my_package c p))
package-routed c p is_c is_p =
    let t = c ++ ("/" ++ ("packages/" ++ p)) in
    let parts : path_of (get_my_package c p) ≡ "/api/services/" ++ ("catalogs" ++ ("/" ++ t)) =
      ap (λ x. "/api/services/catalogs/" ++ (c ++ x)) (append_assoc "/" "packages/" p)
      ∙ append_assoc "/api/services/" "catalogs/" t
      ∙ ap (λ x. "/api/services/" ++ x) (append_assoc "catalogs" "/" t) in
    let below =
      package_route_lem ("/" ++ t) t c ("/" ++ ("packages/" ++ p)) p (append-after_prefix "/" t)
        (segment-path c ("packages/" ++ p) is_c) (after_slash "packages/" p) is_p in
    let found =
      catalogs_route_lem ("catalogs" ++ ("/" ++ t)) ("/" ++ t) _
        (append-after_prefix "catalogs" ("/" ++ t)) (slash-append t) below in
    ap (route "GET") parts
    ∙ route_lem "GET" _ _ _ (append-after_prefix "/api/services/" ("catalogs" ++ ("/" ++ t)))
        (rw found refl)
