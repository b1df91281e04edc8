-- ===== src/Services/Helm/Packages/Listed.antt =====
-- Which packages are listed, and with which answer a package is missing.
use onyxia_backend.Common.{
  ℕ, suc, String, ◌≡◌, ◌⊎◌, inl, inr, refl, ap, false, Option, none, some, List, [], ◌∷◌, map,
  lookup, Error, ok, err, contains, All, arith, Bool-cases, Option-cases, Result-cases,
}
use onyxia_backend.Common.Panics.{Outcome, returned, panicked, Outcome-cases}
use onyxia_backend.UserContext.{Context}
use onyxia_backend.Services.Config.{CatalogConfig, OciPackage, Regexps}
use onyxia_backend.Services.Domain.{Package}
use onyxia_backend.Services.Controller.{ApiCatalog, catalogs_ok, get_my_catalogs}
use onyxia_backend.Services.Controller.Shown.{get_my_catalogs-All}
use onyxia_backend.Services.Helm.{
  ChartVersion, Entries, HelmLib, HelmPackageRepository, is_helm, is_oci,
}
use onyxia_backend.Services.Helm.Index.{
  Row, skipped, broken, listed, row, package_of, load_helm_index, list_entries, list_helm_packages,
}
use onyxia_backend.Services.Helm.Oci.{packages_of, list_oci}
use onyxia_backend.Services.Helm.Packages.{list_packages, recovered, package_repository}

-- None of the names is excluded from the catalog.
abbrev pub HasNoExcluded : CatalogConfig → List String → Type 0
HasNoExcluded c = All (λ n. contains c.excluded n ≡ false)

list_oci-HasNoExcluded :
    (c : CatalogConfig) (ps : List OciPackage) → HasNoExcluded c (map (λ p. p.name) (list_oci c ps))
unfolding list_oci
list_oci-HasNoExcluded c [] = tt
list_oci-HasNoExcluded c (p ∷ ps) = elim (Bool-cases (contains c.excluded p.name)) [
  | inl e ↦ rw (e, list_oci) (list_oci-HasNoExcluded c ps)
  | inr e ↦ rw (e, list_oci) (e, list_oci-HasNoExcluded c ps)
]

Row-cases : (r : Row) → ((r ≡ skipped) ⊎ (r ≡ broken)) ⊎ ((p : Package) × (r ≡ listed p))
Row-cases skipped = inl (inl refl)
Row-cases broken = inl (inr refl)
Row-cases (listed p) = inr (p, refl)

recovered-eq-ok :
    (o : Outcome (List Package)) (ps : List Package) → recovered o ≡ ok ps → o ≡ returned (ok ps)
recovered-eq-ok (returned r) ps h = ap returned h
recovered-eq-ok panicked ps h = ground arith

module _ (lib : HelmLib) where
  open lib use {State}

  row_lem :
      (c : CatalogConfig) (name : String) (vs : List (Option ChartVersion)) (p : Package)
      → row lib c name vs ≡ listed p
      → (p.name ≡ name) × (contains c.excluded name ≡ false)
  unfolding row package_of
  row_lem c name [] p h = ground arith
  row_lem c name (none ∷ vs) p h = ground arith
  row_lem c name (some v ∷ vs) p h = ground arith

  list_entries-HasNoExcluded :
      (ctx_err : ℕ → Option Error) (c : CatalogConfig) (n : ℕ) (idx : Entries) (ps : List Package)
      → list_entries lib ctx_err c n idx ≡ returned (ok ps)
      → HasNoExcluded c (map (λ p. p.name) ps)
  unfolding list_entries
  list_entries-HasNoExcluded ctx_err c n [] ps h =
      let empty : [] ≡ ps = ground arith in rw (← empty) tt
  list_entries-HasNoExcluded ctx_err c n ((name, vs) ∷ idx) ps h = elim (Option-cases (ctx_err n)) [
    | inr (e, f) ↦ ground arith
    | inl f ↦ elim (Row-cases (row lib c name vs)) [
      | inl (inl e) ↦ list_entries-HasNoExcluded ctx_err c (suc n) idx ps (ground arith)
      | inl (inr e) ↦ ground arith
      | inr (p, e) ↦ elim (Outcome-cases (list_entries lib ctx_err c (suc n) idx)) [
        | inl o ↦ ground arith
        | inr (err x, o) ↦ ground arith
        | inr (ok qs, o) ↦
            let whole : p ∷ qs ≡ ps = ground arith in
            let (named, shown) = row_lem c name vs p e in
            rw (← whole) (rw named shown, list_entries-HasNoExcluded ctx_err c (suc n) idx qs o)
      ]
    ]
  ]

  module _ (h : HelmPackageRepository lib) where
    list_packages-HasNoExcluded :
        (ctx_err : ℕ → Option Error) (i : String) (s : State) (ps : List Package)
        → (list_packages lib h ctx_err i s).0 ≡ returned (ok ps)
        → (c : CatalogConfig) → lookup i h.catalogs ≡ some c
        → HasNoExcluded c (map (λ p. p.name) ps)
    unfolding list_packages list_helm_packages
    list_packages-HasNoExcluded ctx_err i s ps e c f = elim (Bool-cases (is_helm c)) [
      | inl t ↦ elim (Result-cases (load_helm_index lib h c.id s).0) [
        | inr (x, l) ↦ ground arith
        | inl ((cr, idx), l) ↦ list_entries-HasNoExcluded ctx_err c 0 idx ps (ground arith)
      ]
      | inr t ↦ elim (Bool-cases (is_oci c)) [
        | inl o ↦
            let whole : list_oci c (packages_of c) ≡ ps = ground arith in
            rw (← whole) (list_oci-HasNoExcluded c (packages_of c))
        | inr o ↦ ground arith
      ]
    ]

    -- In the list of catalogs that a user is shown, no package of a catalog is excluded from that
    -- catalog by the configuration.
    pub no_excluded_listed :
        (re : Regexps) (cfgs : List CatalogConfig) (ctx_err : ℕ → Option Error) (ctx : Context)
        (s : State) (out : List ApiCatalog)
        → (get_my_catalogs re (package_repository lib h ctx_err) cfgs ctx s).0.0 ≡ catalogs_ok out
        → All
            (λ a.
              (c : CatalogConfig)
              → lookup a.id h.catalogs ≡ some c
              → HasNoExcluded c (map (λ p. p.name) a.packages))
            out
    no_excluded_listed re cfgs ctx_err ctx s out e =
        get_my_catalogs-All re (package_repository lib h ctx_err) cfgs
          (λ i ns. (c : CatalogConfig) → lookup i h.catalogs ≡ some c → HasNoExcluded c ns)
          (λ i s ps r.
            list_packages-HasNoExcluded ctx_err i s ps
              (recovered-eq-ok (list_packages lib h ctx_err i s).0 ps r))
          ctx s out e
