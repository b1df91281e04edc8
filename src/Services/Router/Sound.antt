-- ===== src/Services/Router/Sound.antt =====
-- A request reaches the handler of an operation only by the method and the path of the operation.
use mathlib.Core.Path.{subst}
use text.Mathlib.TextLemmas.{append_assoc}
use onyxia_backend.Common.{
  String, ◌≡◌, ◌⊎◌, ◌≢◌, inl, inr, refl, ap, sym, ◌∙◌, Option, none, some, ◌==◌, arith, eq_iff,
  Bool-cases, Option-cases,
}
use onyxia_backend.Common.Text.{◌++◌, after_prefix, segment, after_prefix-append, segment-segment}
use onyxia_backend.Services.Router.{
  Operation, get_my_catalogs, get_my_package, watch_release, watch_resources, get_package_schema,
  install_service, Route, handle, package_route, catalogs_route, watch_route, events_found,
  version_route, schemas_found, install_route, or_else, route, left,
}
use onyxia_backend.Services.Router.Paths.{
  method_of, path_of, IsSegment, HasSegments, IsReached, IsRouteOf, leaf-handle, last-handle,
  last_param-handle, segment_prefix,
}

-- Two or three known parts of a path
joined : (a b t : String) → a ++ (b ++ t) ≡ (a ++ b) ++ t
joined a b t = sym (append_assoc a b t)

joined_below : (a b c t : String) → a ++ (b ++ (c ++ t)) ≡ (a ++ (b ++ c)) ++ t
joined_below a b c t = ap (λ x. a ++ x) (joined b c t) ∙ joined a (b ++ c) t

package_route-handle :
    (method e : String) (op : Operation)
    → package_route method e ≡ some (handle op)
    → IsRouteOf op method ("catalogs" ++ e)
unfolding package_route
package_route-handle method e op h = elim (Option-cases (after_prefix "/" e)) [
  | inl f ↦ ground arith
  | inr (rest, f) ↦ elim (Option-cases (after_prefix "/packages/" (segment rest).1)) [
    | inl g ↦ ground arith
    | inr (name, g) ↦
        let (whole, m, o) =
          last_param-handle method (λ n. get_my_package (segment rest).0 n) name op
            (ground arith) in
        let parts =
          after_prefix-append "/" e rest f
          ∙ ap (λ x. "/" ++ x) (segment_prefix "/packages/" rest name g) in
        subst (λ (x : Operation). IsRouteOf x method ("catalogs" ++ e)) o
          (record {
            allowed = m;
            path =
                ap (λ x. "/api/services/" ++ ("catalogs" ++ x)) parts
                ∙ joined_below "/api/services/" "catalogs" "/"
                    ((segment rest).0 ++ ("/packages/" ++ name));
            segments = (segment-segment rest, whole);
          })
  ]
]

catalogs_route-handle :
    (method e : String) (op : Operation)
    → catalogs_route method e ≡ some (handle op)
    → IsRouteOf op method e
unfolding catalogs_route
catalogs_route-handle method e op h = elim (Option-cases (after_prefix "catalogs" e)) [
  | inl f ↦ ground arith
  | inr (rest, f) ↦
      let start = after_prefix-append "catalogs" e rest f in
      elim (Bool-cases (rest == "")) [
        | inr n ↦
            subst (IsRouteOf op method) (sym start)
              (package_route-handle method rest op (ground arith))
        | inl n ↦
            let (m, o) = leaf-handle "GET" method get_my_catalogs op (ground arith) in
            let empty : rest ≡ "" = (eq_iff rest "").0 n in
            subst (λ (x : Operation). IsRouteOf x method e) o
              (record {
                allowed = m;
                path = ap (λ x. "/api/services/" ++ x) (start ∙ ap (λ x. "catalogs" ++ x) empty);
                segments = tt;
              })
      ]
]

install_route-handle :
    (method e : String) (op : Operation)
    → install_route method e ≡ some (handle op)
    → IsRouteOf op method e
unfolding install_route
install_route-handle method e op h = elim (Option-cases (after_prefix "/install" (segment e).1)) [
  | inl f ↦ ground arith
  | inr (rest, f) ↦
      let (empty, m, o) =
        last-handle "PUT" method (install_service (segment e).0) op rest (ground arith) in
      subst (λ (x : Operation). IsRouteOf x method e) o
        (record {
          allowed = m;
          path =
              ap (λ x. "/api/services/" ++ x)
                (segment_prefix "/install" e rest f
                  ∙ ap (λ x. (segment e).0 ++ ("/install" ++ x)) empty);
          segments = segment-segment e;
        })
]

watch_route-handle :
    (method i e : String) (op : Operation)
    → watch_route method i e ≡ some (handle op)
    → (method ≡ "GET")
      × (((e ≡ "lease") × (watch_release i ≡ op)) ⊎ ((e ≡ "sources") × (watch_resources i ≡ op)))
unfolding watch_route
watch_route-handle method i e op h = elim (Option-cases (after_prefix "lease" e)) [
  | inr (rest, f) ↦
      let (empty, m, o) = last-handle "GET" method (watch_release i) op rest (ground arith) in
      (m, inl (after_prefix-append "lease" e rest f ∙ ap (λ x. "lease" ++ x) empty, o))
  | inl f ↦ elim (Option-cases (after_prefix "sources" e)) [
    | inl g ↦ ground arith
    | inr (rest, g) ↦
        let (empty, m, o) = last-handle "GET" method (watch_resources i) op rest (ground arith) in
        (m, inr (after_prefix-append "sources" e rest g ∙ ap (λ x. "sources" ++ x) empty, o))
  ]
]

-- The path below "/api/services/" of a watched release
watched :
    (e rest below part : String)
    → after_prefix "events/" e ≡ some rest
    → after_prefix "/watch-re" (segment rest).1 ≡ some below
    → below ≡ part
    → "/api/services/" ++ e ≡ "/api/services/events/" ++ ((segment rest).0 ++ ("/watch-re" ++ part))
watched e rest below part f g same =
    ap (λ x. "/api/services/" ++ x)
      (after_prefix-append "events/" e rest f
        ∙ ap (λ x. "events/" ++ x)
            (segment_prefix "/watch-re" rest below g
              ∙ ap (λ x. (segment rest).0 ++ ("/watch-re" ++ x)) same))
    ∙ joined "/api/services/" "events/" ((segment rest).0 ++ ("/watch-re" ++ part))

events_found-handle :
    (method e : String) (op : Operation)
    → events_found method e ≡ some (handle op)
    → IsRouteOf op method e
unfolding events_found
events_found-handle method e op h = elim (Option-cases (after_prefix "events/" e)) [
  | inl f ↦ ground arith
  | inr (rest, f) ↦ elim (Option-cases (after_prefix "/watch-re" (segment rest).1)) [
    | inl g ↦ ground arith
    | inr (below, g) ↦
        let (m, parts) = watch_route-handle method (segment rest).0 below op (ground arith) in
        elim parts [
          | inl (same, o) ↦
              subst (λ (x : Operation). IsRouteOf x method e) o
                (record {
                  allowed = m;
                  path = watched e rest below "lease" f g same;
                  segments = segment-segment rest;
                })
          | inr (same, o) ↦
              subst (λ (x : Operation). IsRouteOf x method e) o
                (record {
                  allowed = m;
                  path = watched e rest below "sources" f g same;
                  segments = segment-segment rest;
                })
        ]
  ]
]

version_route-handle :
    (method c e : String) (op : Operation)
    → version_route method c e ≡ some (handle op)
    → (method ≡ "GET")
      × (p : String) × (v : String) × IsSegment p
      × IsSegment v
      × (e ≡ p ++ ("/versions/" ++ v))
      × (get_package_schema c p v ≡ op)
unfolding version_route
version_route-handle method c e op h =
    elim (Option-cases (after_prefix "/versions/" (segment e).1)) [
      | inl f ↦ ground arith
      | inr (v, f) ↦
          let (whole, m, o) =
            last_param-handle method (λ x. get_package_schema c (segment e).0 x) v op
              (ground arith) in
          (m, (segment e).0, v, segment-segment e, whole, segment_prefix "/versions/" e v f, o)
    ]

schemas_found-handle :
    (method e : String) (op : Operation)
    → schemas_found method e ≡ some (handle op)
    → IsRouteOf op method e
unfolding schemas_found
schemas_found-handle method e op h = elim (Option-cases (after_prefix "schemas/" e)) [
  | inl f ↦ ground arith
  | inr (rest, f) ↦ elim (Option-cases (after_prefix "/packageName/" (segment rest).1)) [
    | inl g ↦ ground arith
    | inr (below, g) ↦
        let (m, p, v, is_p, is_v, same, o) =
          version_route-handle method (segment rest).0 below op (ground arith) in
        let parts =
          after_prefix-append "schemas/" e rest f
          ∙ ap (λ x. "schemas/" ++ x)
              (segment_prefix "/packageName/" rest below g
                ∙ ap (λ x. (segment rest).0 ++ ("/packageName/" ++ x)) same) in
        subst (λ (x : Operation). IsRouteOf x method e) o
          (record {
            allowed = m;
            path =
                ap (λ x. "/api/services/" ++ x) parts
                ∙ joined "/api/services/" "schemas/"
                    ((segment rest).0 ++ ("/packageName/" ++ (p ++ ("/versions/" ++ v))));
            segments = (segment-segment rest, is_p, is_v);
          })
  ]
]

or_else-cases :
    (o p : Option Route) (r : Route) → or_else o p ≡ some r → (o ≡ some r) ⊎ (p ≡ some r)
or_else-cases (some r') p r h = inl h
or_else-cases none p r h = inr h

unhandled : {op : Operation} → ¬ (none ≡ some (handle op))
unhandled h = ground arith

-- A branch leaves the whole path or nothing of it.
left-cases : (p e : String) → (left p e ≡ e) ⊎ (left p e ≡ "")
unfolding left
left-cases p e = elim (Option-cases (after_prefix p e)) [
  | inl f ↦ inl (ground arith)
  | inr (rest, f) ↦ elim (Bool-cases ((segment rest).1 == "")) [
    | inl g ↦ inr (ground arith)
    | inr g ↦ inl (ground arith)
  ]
]

nothing_installed : (method : String) → install_route method "" ≡ none
unfolding install_route segment after_prefix
nothing_installed method = refl

nothing_found : (method : String) → schemas_found method "" ≡ none
unfolding schemas_found after_prefix
nothing_found method = refl

-- What the parameter `releaseId` is looked for in is the whole path when it is found.
install_left :
    (method e rest : String) (op : Operation)
    → (rest ≡ e) ⊎ (rest ≡ "")
    → install_route method (left "schemas/" rest) ≡ some (handle op)
    → (rest ≡ e) × (left "schemas/" e ≡ e) × (install_route method e ≡ some (handle op))
unfolding left after_prefix
install_left method e rest op c h = elim c [
  | inr f ↦ absurd (
      unhandled (
        sym (nothing_installed method)
        ∙ ap (λ x. install_route method (left "schemas/" x)) (sym f)
        ∙ h))
  | inl f ↦
      let whole = ap (λ x. install_route method (left "schemas/" x)) (sym f) ∙ h in
      elim (left-cases "schemas/" e) [
        | inl g ↦ (f, g, ap (install_route method) (sym g) ∙ whole)
        | inr g ↦
            absurd (
              unhandled
                (sym (nothing_installed method) ∙ ap (install_route method) (sym g) ∙ whole))
      ]
]

below_services :
    (method rest : String) (op : Operation)
    → or_else (catalogs_route method rest) (
        or_else (events_found method rest) (
          or_else
            (schemas_found method (left "events/" rest))
            (install_route method (left "schemas/" (left "events/" rest)))))
      ≡ some (handle op)
    → IsRouteOf op method rest
below_services method rest op h = elim (or_else-cases (catalogs_route method rest) _ _ h) [
  | inl e ↦ catalogs_route-handle method rest op e
  | inr h' ↦ elim (or_else-cases (events_found method rest) _ _ h') [
    | inl e ↦ events_found-handle method rest op e
    | inr h'' ↦ elim (or_else-cases (schemas_found method (left "events/" rest)) _ _ h'') [
      | inl e ↦ elim (left-cases "events/" rest) [
        | inl f ↦ schemas_found-handle method rest op (ap (schemas_found method) (sym f) ∙ e)
        | inr f ↦
            absurd (unhandled (sym (nothing_found method) ∙ ap (schemas_found method) (sym f) ∙ e))
      ]
      | inr e ↦
          let (whole, same, found) =
            install_left method rest (left "events/" rest) op (left-cases "events/" rest) e in
          install_route-handle method rest op found
    ]
  ]
]

not_found :
    (id r : String)
    → route "PUT" (path_of (install_service id)) ≡ none
    → route "PUT" (path_of (install_service r)) ≡ some (handle (install_service r))
    → r ≢ id
not_found id r f h e =
    unhandled (sym f ∙ ap (λ x. route "PUT" (path_of (install_service x))) (sym e) ∙ h)

-- An installation is not found under the names of the two branches that lose their path.
reached : (op : Operation) → route (method_of op) (path_of op) ≡ some (handle op) → IsReached op
unfolding route after_prefix segment catalogs_route events_found schemas_found left install_route
reached get_my_catalogs h = tt
reached (get_my_package c p) h = tt
reached (watch_release r) h = tt
reached (watch_resources r) h = tt
reached (get_package_schema c p v) h = tt
reached (install_service r) h = (not_found "events" r refl h, not_found "schemas" r refl h)

-- The handler of an operation is called only for a request with the method of that operation, and
-- only for its path in the document of the API, in which the arguments are the segments that stand
-- for its parameters; an installation is found only if the release is called neither "events" nor
-- "schemas".
pub route-handle :
    (method elem : String) (op : Operation)
    → route method elem ≡ some (handle op)
    → (method ≡ method_of op) × (elem ≡ path_of op) × HasSegments op × IsReached op
unfolding route
route-handle method elem op h = elim (Option-cases (after_prefix "/api/services/" elem)) [
  | inl f ↦ ground arith
  | inr (rest, f) ↦
      let start = after_prefix-append "/api/services/" elem rest f in
      let found = below_services method rest op (ground arith) in
      let whole = start ∙ found.path in
      let at_path = ap (λ m. route m (path_of op)) (sym found.allowed) in
      (
        found.allowed,
        whole,
        found.segments,
        reached op (at_path ∙ ap (route method) (sym whole) ∙ h),
      )
]
