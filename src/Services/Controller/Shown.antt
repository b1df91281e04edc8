-- ===== src/Services/Controller/Shown.antt =====
-- Which catalogs and packages a request is shown.
use onyxia_backend.Common.{
  String, ◌≡◌, ◌↔◌, inl, inr, refl, Bool, true, Option, none, some, List, [], ◌∷◌, map, is,
  err_not_found, Error, err, arith, Result-cases, All, ok, ap,
}
use onyxia_backend.UserContext.{Context, User, get_user, get_attributes}
use onyxia_backend.Services.Config.{CatalogConfig, Regexps}
use onyxia_backend.Services.Domain
use onyxia_backend.Services.Catalogs.{
  PackageRepository, is_for_user, is_public, catalog_of, build_catalogs, list_public_catalogs,
  list_user_catalogs, get_package,
}
use onyxia_backend.Services.Catalogs.Listed.{
  passing, without_packages, build_catalogs_lem, build_catalogs-All,
}
use onyxia_backend.Services.Controller.{
  ApiCatalog, catalogs_ok, api_catalog, shown, catalogs_for, get_my_catalogs, package_not_found,
  shown_package, get_my_package, api_package,
}

-- The test that the catalogs have to pass that are shown to a user, or without one
abbrev pub visible_to : Regexps → Context → Option User → CatalogConfig → Bool
visible_to re ctx (some u) c = is_for_user re (get_attributes ctx) c
visible_to re ctx none c = is_public c

ids_of :
    (cs : List Domain.Catalog) (cfgs : List CatalogConfig)
    → map without_packages cs ≡ map (λ c. catalog_of c []) cfgs
    → map (λ c. c.id) (map api_catalog cs) ≡ map (λ c. c.id) cfgs
unfolding api_catalog catalog_of
ids_of [] [] h = refl
ids_of [] (g ∷ gs) h = cc
ids_of (c ∷ cs) [] h = cc
ids_of (c ∷ cs) (g ∷ gs) h = ground (arith, ids_of cs gs)

names_of :
    (ps : List Domain.Package) → map (λ p. p.name) (map api_package ps) ≡ map (λ p. p.name) ps
names_of [] = refl
names_of (p ∷ ps) = ap (λ ns. p.name ∷ ns) (names_of ps)

module _ (re : Regexps) (repo : PackageRepository) (cfgs : List CatalogConfig) where
  built :
      (test : CatalogConfig → Bool) (s : repo.State) (out : List ApiCatalog)
      → (shown (build_catalogs repo test cfgs s)).0.0 ≡ catalogs_ok out
      → map (λ c. c.id) out ≡ map (λ c. c.id) (passing test cfgs)
  unfolding shown
  built test s out h = elim (Result-cases (build_catalogs repo test cfgs s).0) [
    | inr (e, f) ↦ ground arith
    | inl (cs, e) ↦
        let same = ids_of cs (passing test cfgs) (build_catalogs_lem repo test cfgs s cs e) in
        ground (arith, same)
  ]

  shown_to :
      (ctx : Context) (u : Option User) (s : repo.State) (out : List ApiCatalog)
      → (catalogs_for re repo cfgs ctx u s).0.0 ≡ catalogs_ok out
      → map (λ c. c.id) out ≡ map (λ c. c.id) (passing (visible_to re ctx u) cfgs)
  unfolding catalogs_for list_user_catalogs list_public_catalogs
  shown_to ctx (some u) s out h = built (is_for_user re (get_attributes ctx)) s out h
  shown_to ctx none s out h = built is_public s out h

  -- A request that is shown catalogs is shown just those it may see, in the order of the
  -- configuration: with a user in the context those for the attributes of this user, and without
  -- a user those without restrictions.
  pub get_my_catalogs_lem :
      (ctx : Context) (s : repo.State) (out : List ApiCatalog)
      → (get_my_catalogs re repo cfgs ctx s).0.0 ≡ catalogs_ok out
      → map (λ c. c.id) out ≡ map (λ c. c.id) (passing (visible_to re ctx (get_user ctx)) cfgs)
  unfolding get_my_catalogs
  get_my_catalogs_lem ctx s out h = shown_to ctx (get_user ctx) s out h

  api_packages :
      (P : String → List String → Type 0) (cs : List Domain.Catalog)
      → All (λ c. P c.id (map (λ p. p.name) c.packages)) cs
      → All (λ c. P c.id (map (λ p. p.name) c.packages)) (map api_catalog cs)
  unfolding api_catalog
  api_packages P [] h = tt
  api_packages P (c ∷ cs) h = (rw (names_of c.packages) (h.0), api_packages P cs h.1)

  module _ (P : String → List String → Type 0)
      (holds : (i : String) (s : repo.State) (ps : List Domain.Package)
        → (repo.list_packages i s).0 ≡ ok ps
        → P i (map (λ p. p.name) ps)) where
    built-All :
        (test : CatalogConfig → Bool) (s : repo.State) (out : List ApiCatalog)
        → (shown (build_catalogs repo test cfgs s)).0.0 ≡ catalogs_ok out
        → All (λ c. P c.id (map (λ p. p.name) c.packages)) out
    unfolding shown
    built-All test s out h = elim (Result-cases (build_catalogs repo test cfgs s).0) [
      | inr (e, f) ↦ ground arith
      | inl (cs, e) ↦
          let same : map api_catalog cs ≡ out = ground arith in
          rw (← same) (
            api_packages P cs
              (build_catalogs-All repo (λ i ps. P i (map (λ p. p.name) ps)) holds test cfgs s cs e))
    ]

    shown_to-All :
        (ctx : Context) (u : Option User) (s : repo.State) (out : List ApiCatalog)
        → (catalogs_for re repo cfgs ctx u s).0.0 ≡ catalogs_ok out
        → All (λ c. P c.id (map (λ p. p.name) c.packages)) out
    unfolding catalogs_for list_user_catalogs list_public_catalogs
    shown_to-All ctx (some u) s out h = built-All (is_for_user re (get_attributes ctx)) s out h
    shown_to-All ctx none s out h = built-All is_public s out h

    -- What holds of the names in every list of packages that the repository gives holds of those
    -- that are shown.
    pub get_my_catalogs-All :
        (ctx : Context) (s : repo.State) (out : List ApiCatalog)
        → (get_my_catalogs re repo cfgs ctx s).0.0 ≡ catalogs_ok out
        → All (λ c. P c.id (map (λ p. p.name) c.packages)) out
    unfolding get_my_catalogs
    get_my_catalogs-All ctx s out h = shown_to-All ctx (get_user ctx) s out h

  -- The answer for a package is that it is not found exactly if the use case fails with an error
  -- that wraps the error for what is not found, and then no error is returned along with the answer.
  pub get_my_package_iff :
      (i n : String) (s : repo.State) (e : Error)
      → ((get_my_package re repo cfgs i n s).0 ≡ (package_not_found e, none))
        ↔ (((get_package repo cfgs i n s).0 ≡ err e) × (is e err_not_found ≡ true))
  unfolding get_my_package shown_package
  get_my_package_iff i n s e = elim (Result-cases (get_package repo cfgs i n s).0) [
    | inl (r, p) ↦ (λ h. ground arith, λ (f, q). ground arith)
    | inr (e', f) ↦ (λ h. (ground arith, ground arith), λ (g, q). ground arith)
  ]
