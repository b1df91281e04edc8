-- ===== src/Services/Router/Installed.antt =====
-- The path of an installation is in none of the static branches of the router.
use text.Mathlib.TextLemmas.{nil-append, cons-append, cons≢nil, append_assoc}
use Prim.Native.Char.{code}
use onyxia_backend.Common.{
  String, ◌≡◌, inl, inr, refl, ap, sym, ◌∙◌, false, none, some, ◌==◌, arith, eq_iff, Bool-cases,
  Option-cases, ◌≢◌,
}
use onyxia_backend.Common.Text.{
  ◌++◌, after_prefix, segment, append-after_prefix, segment-path, segment-cons, same,
  after_prefix-append,
}
use onyxia_backend.Services.Router.{
  install_service, handle, package_route, catalogs_route, schemas_found, route,
}
use onyxia_backend.Services.Router.Paths.{path_of, IsSegment, IsReached}
use onyxia_backend.Services.Router.Complete.{
  install_route_lem, route_lem, catalogs_route-none, events_found-none, left-none,
}

-- A known segment in front of a path that has one segment before "/install"
install_prefix :
    (p id rest : String)
    → IsSegment p
    → IsSegment id
    → after_prefix p (id ++ "/install") ≡ some rest
    → (x : String) × IsSegment x × (rest ≡ x ++ "/install")
unfolding after_prefix
install_prefix String.[] id rest is_p is_id h = (id, is_id, ground arith)
install_prefix (String.◌∷◌ c p) String.[] rest is_p is_id h =
    let (other, is_p') = segment-cons c p is_p in
    let whole = ap (after_prefix (String.◌∷◌ c p)) (sym (nil-append "/install")) ∙ h in
    absurd (ground arith)
install_prefix (String.◌∷◌ c p) (String.◌∷◌ d id) rest is_p is_id h =
    let (other, is_id') = segment-cons d id is_id in
    let (other', is_p') = segment-cons c p is_p in
    let whole = ap (after_prefix (String.◌∷◌ c p)) (sym (cons-append d id "/install")) ∙ h in
    install_prefix p id rest is_p' is_id' (ground arith)

install_slash :
    (x rest : String)
    → IsSegment x
    → after_prefix "/" (x ++ "/install") ≡ some rest
    → rest ≡ "install"
unfolding after_prefix
install_slash String.[] rest is_x h =
    let whole = ap (after_prefix "/") (sym (nil-append "/install")) ∙ h in ground arith
install_slash (String.◌∷◌ c x) rest is_x h =
    let (other, is_x') = segment-cons c x is_x in
    let whole = ap (after_prefix "/") (sym (cons-append c x "/install")) ∙ h in
    absurd (ground arith)

after_prefix-both :
    (p q s rest : String)
    → after_prefix (p ++ q) s ≡ some rest
    → (m : String) × (after_prefix p s ≡ some m) × (after_prefix q m ≡ some rest)
unfolding after_prefix
after_prefix-both String.[] q s rest h =
    (s, refl, ap (λ x. after_prefix x s) (sym (nil-append q)) ∙ h)
after_prefix-both (String.◌∷◌ c p) q String.[] rest h =
    let whole = ap (λ x. after_prefix x "") (sym (cons-append c p q)) ∙ h in absurd (ground arith)
after_prefix-both (String.◌∷◌ c p) q (String.◌∷◌ d s) rest h =
    let whole = ap (λ x. after_prefix x (String.◌∷◌ d s)) (sym (cons-append c p q)) ∙ h in
    elim (Bool-cases (same (code c) (code d))) [
      | inr e ↦ absurd (ground arith)
      | inl e ↦ let (m, f, g) = after_prefix-both p q s rest (ground arith) in (m, ground arith, g)
    ]

-- A static branch leaves nothing of the path but "install".
static_install :
    (p id rest : String)
    → IsSegment p
    → IsSegment id
    → after_prefix (p ++ "/") (id ++ "/install") ≡ some rest
    → rest ≡ "install"
static_install p id rest is_p is_id h =
    let (m, f, g) = after_prefix-both p "/" (id ++ "/install") rest h in
    let (x, is_x, e) = install_prefix p id m is_p is_id f in
    install_slash x rest is_x (ap (after_prefix "/") (sym e) ∙ g)

module _ (method : String) where
  package_route-install :
      (e : String) → after_prefix "/" e ≡ some "install" → package_route method e ≡ none
  unfolding package_route
  package_route-install e h = ground arith

  schemas_found-none :
      (e : String) → after_prefix "schemas/" e ≡ none → schemas_found method e ≡ none
  unfolding schemas_found
  schemas_found-none e h = ground arith

  package_route-none : (e : String) → after_prefix "/" e ≡ none → package_route method e ≡ none
  unfolding package_route
  package_route-none e h = ground arith

  catalogs_route-below :
      (e rest : String)
      → after_prefix "catalogs" e ≡ some rest
      → (rest == "") ≡ false
      → package_route method rest ≡ none
      → catalogs_route method e ≡ none
  unfolding catalogs_route
  catalogs_route-below e rest f g h = ground arith

-- The path of an installation is in a branch with a parameter only for the name of the branch.
not_static :
    (p id : String)
    → IsSegment p
    → IsSegment id
    → id ≢ p
    → after_prefix (p ++ "/") (id ++ "/install") ≡ none
not_static p id is_p is_id other =
    elim (Option-cases (after_prefix (p ++ "/") (id ++ "/install"))) [
      | inl e ↦ e
      | inr (rest, e) ↦
          let whole =
            after_prefix-append (p ++ "/") (id ++ "/install") rest e
            ∙ ap (λ x. (p ++ "/") ++ x) (static_install p id rest is_p is_id e)
            ∙ append_assoc p "/" "install" in
          let parts =
            sym (segment-path id "install" is_id)
            ∙ ap segment whole
            ∙ segment-path p "install" is_p in
          absurd (other (ap (λ x. x.0) parts))
    ]

never_empty : (x : String) → ¬ ((x ++ "/install") ≡ "")
never_empty String.[] h = cons≢nil {x = "/"} {xs = "install"} (sym (nil-append "/install") ∙ h)
never_empty (String.◌∷◌ c x) h = cons≢nil (sym (cons-append c x "/install") ∙ h)

install_nonempty : (x : String) → ((x ++ "/install") == "") ≡ false
install_nonempty x = elim (Bool-cases ((x ++ "/install") == "")) [
  | inr e ↦ e
  | inl e ↦ absurd (never_empty x ((eq_iff (x ++ "/install") "").0 e))
]

module _ (method id : String) (is_id : IsSegment id) where
  package_none : (x : String) → IsSegment x → package_route method (x ++ "/install") ≡ none
  package_none x is_x = elim (Option-cases (after_prefix "/" (x ++ "/install"))) [
    | inl e ↦ package_route-none method (x ++ "/install") e
    | inr (rest, e) ↦
        package_route-install method (x ++ "/install") (e ∙ ap some (install_slash x rest is_x e))
  ]

  catalogs_none : catalogs_route method (id ++ "/install") ≡ none
  unfolding segment
  catalogs_none = elim (Option-cases (after_prefix "catalogs" (id ++ "/install"))) [
    | inl e ↦ catalogs_route-none method (id ++ "/install") e
    | inr (rest, e) ↦
        let (x, is_x, same) = install_prefix "catalogs" id rest refl is_id e in
        catalogs_route-below method (id ++ "/install") (x ++ "/install") (e ∙ ap some same)
          (install_nonempty x) (package_none x is_x)
  ]

pub install-routed :
    (id : String)
    → IsSegment id
    → IsReached (install_service id)
    → route "PUT" (path_of (install_service id)) ≡ some (handle (install_service id))
unfolding after_prefix segment
install-routed id is_id (no_events, no_schemas) =
    let e = id ++ "/install" in
    let here = install_route_lem e id "/install" (segment-path id "install" is_id) refl in
    let no_event = not_static "events" id refl is_id no_events in
    let no_schema = not_static "schemas" id refl is_id no_schemas in
    route_lem "PUT" _ e _ (append-after_prefix "/api/services/" e) (
      rw
        (
          catalogs_none "PUT" id is_id,
          events_found-none "PUT" e no_event,
          left-none "events/" e no_event,
          schemas_found-none "PUT" e no_schema,
          left-none "schemas/" e no_schema,
          here,
        )
        refl)
