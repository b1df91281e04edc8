-- ===== src/Services/Helm/Sound.antt =====
-- The repository that is made from a valid configuration.
use onyxia_backend.Common.{
  String, ◌≡◌, ◌⊎◌, inl, inr, refl, true, false, some, List, [], ◌∷◌, lookup, insert, lookup-insert,
  ok, All, arith, eq_iff, Bool-cases, Result-cases, ◌==◌,
}
use onyxia_backend.Services.Config.{CatalogConfig, Regexps}
use onyxia_backend.Services.Config.Valid.{HasMode, IsValid}
use onyxia_backend.Services.Versions.{version_filter_from}
use onyxia_backend.Services.Helm.{
  HelmLib, HelmPackageRepository, is_helm, entry_of, add_catalog, add_catalogs,
  new_package_repository,
}

module _ (lib : HelmLib) where
  open lib use {State, Repo}

  -- What the construction makes true of every catalog that is known
  pub record IsKnown (h : HelmPackageRepository lib) (i : String) (c : CatalogConfig) : Type 0 where
    pub identified : c.id ≡ i
    pub mode : HasMode c.multiple_services_mode c.max_number_of_versions
    pub repository : is_helm c ≡ true → (cr : Repo) × (lookup i h.repos ≡ some cr)

  abbrev pub IsSound : HelmPackageRepository lib → Type 0
  IsSound h = (i : String) (c : CatalogConfig) → lookup i h.catalogs ≡ some c → IsKnown h i c

  -- What a round adds: the catalog, and a repository if it is a Helm catalog
  pub record IsAdded (c : CatalogConfig) (h h' : HelmPackageRepository lib) : Type 0 where
    pub catalogs : h'.catalogs ≡ insert c.id c h.catalogs
    pub cache : h'.cache ≡ h.cache
    pub repos :
        ((is_helm c ≡ true) × (cr : Repo) × (h'.repos ≡ insert c.id cr h.repos))
        ⊎ ((is_helm c ≡ false) × (h'.repos ≡ h.repos))

  add_catalog-IsAdded :
      (c : CatalogConfig) (h h' : HelmPackageRepository lib)
      → add_catalog lib c h ≡ ok h'
      → IsAdded c h h'
  unfolding add_catalog
  add_catalog-IsAdded c h h' e = elim (Bool-cases (is_helm c)) [
    | inr t ↦ record {
      catalogs = ground arith;
      cache = ground arith;
      repos = inr (t, ground arith);
    }
    | inl t ↦ elim (Result-cases (version_filter_from c)) [
      | inr (f, v) ↦ ground arith
      | inl (f, v) ↦ elim (Result-cases (lib.new_chart_repository (entry_of lib c))) [
        | inr (f', r) ↦ ground arith
        | inl (cr, r) ↦ record {
          catalogs = ground arith;
          cache = ground arith;
          repos = inl (t, cr, ground arith);
        }
      ]
    ]
  ]

  same_repository :
      (c : CatalogConfig) (h h' : HelmPackageRepository lib)
      → IsAdded c h h'
      → (i : String) (cr : Repo) → lookup i h.repos ≡ some cr
      → (cr' : Repo) × (lookup i h'.repos ≡ some cr')
  same_repository c h h' added i cr found = elim (added.repos) [
    | inl (t, cr', e) ↦ elim (Bool-cases (c.id == i)) [
      | inl same ↦ (cr', ground (arith, lookup-insert c.id i cr' h.repos))
      | inr other ↦ (cr, ground (arith, lookup-insert c.id i cr' h.repos))
    ]
    | inr (t, e) ↦ (cr, ground arith)
  ]

  own_repository :
      (c : CatalogConfig) (h h' : HelmPackageRepository lib)
      → IsAdded c h h'
      → is_helm c ≡ true
      → (cr : Repo) × (lookup c.id h'.repos ≡ some cr)
  own_repository c h h' added t = elim (added.repos) [
    | inl (t', cr, e) ↦ (cr, ground (arith, lookup-insert c.id c.id cr h.repos, eq_iff c.id c.id))
    | inr (f, e) ↦ ground arith
  ]

  IsAdded-IsSound :
      (c : CatalogConfig) (h h' : HelmPackageRepository lib)
      → HasMode c.multiple_services_mode c.max_number_of_versions
      → IsSound h
      → IsAdded c h h'
      → IsSound h'
  IsAdded-IsSound c h h' mode sound added i d found = elim (Bool-cases (c.id == i)) [
    | inl e ↦
        let i' : c.id ≡ i = (eq_iff c.id i).0 e in
        let c' : c ≡ d = ground (arith, lookup-insert c.id i c h.catalogs, added.catalogs) in
        let known : IsKnown h' c.id c = record {
          identified = refl;
          mode = mode;
          repository = own_repository c h h' added;
        } in
        rw (← c', ← i') known
    | inr e ↦
        let old = sound i d (ground (arith, lookup-insert c.id i c h.catalogs, added.catalogs)) in
        record {
          identified = old.identified;
          mode = old.mode;
          repository = λ t. let (cr, f) = old.repository t in same_repository c h h' added i cr f;
        }
  ]

  add_catalogs-IsSound :
      (re : Regexps) (cs : List CatalogConfig) (h h' : HelmPackageRepository lib)
      → All (IsValid re) cs
      → IsSound h
      → add_catalogs lib cs h ≡ ok h'
      → IsSound h'
  unfolding add_catalogs
  add_catalogs-IsSound re [] h h' valid sound e =
      let same : h ≡ h' = ground arith in rw (← same) sound
  add_catalogs-IsSound re (c ∷ cs) h h' valid sound e = elim (Result-cases (add_catalog lib c h)) [
    | inr (f, r) ↦ ground arith
    | inl (g, r) ↦
        let added = add_catalog-IsAdded c h g r in
        add_catalogs-IsSound re cs g h' valid.1 (IsAdded-IsSound c h g valid.0.mode sound added)
          (ground arith)
  ]

  -- Every catalog that a repository knows stands under its identifier, has an accepted mode, and
  -- has a chart repository if it is a Helm catalog, if the repository is made from a list of valid
  -- catalogs.
  pub new_package_repository-IsSound :
      (re : Regexps) (cs : List CatalogConfig) (cache_dir : String) (h : HelmPackageRepository lib)
      → All (IsValid re) cs
      → new_package_repository lib cs cache_dir ≡ ok h
      → IsSound h
  unfolding new_package_repository lookup
  new_package_repository-IsSound re cs cache_dir h valid e =
      add_catalogs-IsSound re cs _ h valid (λ i c found. ground arith) e
