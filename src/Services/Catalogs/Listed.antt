-- ===== src/Services/Catalogs/Listed.antt =====
-- Which catalogs are listed, and what the lookups of packages answer.
use onyxia_backend.Common.{
  String, ◌≡◌, ◌≢◌, ◌↔◌, ◌⊎◌, inl, inr, Bool, true, Option, some, List, [], ◌∷◌, map, Dict, lookup,
  ok, if◌then◌else◌, arith, eq_iff, Bool-cases, Option-cases, Result-cases, All,
}
use onyxia_backend.Common.Any.{Any}
use onyxia_backend.Services.Config.{Restriction, CatalogConfig, Regexps}
use onyxia_backend.Services.Domain.{PackageRef, Catalog, Package}
use onyxia_backend.Services.Catalogs.{
  PackageRepository, matches, is_met, some_met, is_for_user, catalog_of, build_catalogs,
  find_catalog, found_package, get_package,
}

-- The catalogs that pass a test, in their order
abbrev pub passing : (CatalogConfig → Bool) → List CatalogConfig → List CatalogConfig
passing test [] = []
passing test (c ∷ cs) = let rest = passing test cs in if test c then c ∷ rest else rest

module _ (re : Regexps) where
  -- The user has the attribute of a restriction, with a value that its pattern matches.
  pub record IsMet (attrs : Dict Any) (r : Restriction) : Type 0 where
    pub value : Any
    pub pattern : re.Regexp
    pub named : r.user_attribute_key ≢ ""
    pub given : r.match_pattern ≢ ""
    pub found : lookup r.user_attribute_key attrs ≡ some value
    pub compiled : re.compile r.match_pattern ≡ ok pattern
    pub matched : matches re pattern value ≡ true

  -- One of the restrictions is met.
  abbrev pub Some : Dict Any → List Restriction → Type 0
  Some attrs [] = ⊥
  Some attrs (r ∷ rs) = IsMet attrs r ⊎ Some attrs rs

  is_met_iff : (attrs : Dict Any) (r : Restriction) → (is_met re attrs r ≡ true) ↔ IsMet attrs r
  unfolding is_met
  is_met_iff attrs r =
      let key = eq_iff r.user_attribute_key "" in
      let pattern = eq_iff r.match_pattern "" in
      (
        λ h. elim (Option-cases (lookup r.user_attribute_key attrs)) [
          | inl e ↦ ground arith
          | inr (v, e) ↦ elim (Result-cases (re.compile r.match_pattern)) [
            | inr (f, c) ↦ ground arith
            | inl (p, c) ↦ record {
              value = v;
              pattern = p;
              named = ground (arith, key);
              given = ground (arith, pattern);
              found = e;
              compiled = c;
              matched = ground arith;
            }
          ]
        ],
        λ m. ground (arith, key, pattern, m.named, m.given, m.found, m.compiled, m.matched),
      )

  some_met_iff :
      (attrs : Dict Any) (rs : List Restriction) → (some_met re attrs rs ≡ true) ↔ Some attrs rs
  unfolding some_met
  some_met_iff attrs [] = (λ h. ground arith, λ h. absurd h)
  some_met_iff attrs (r ∷ rs) =
      let met = is_met_iff attrs r in
      let later = some_met_iff attrs rs in
      (
        λ h. elim (Bool-cases (is_met re attrs r)) [
          | inl e ↦ inl (met.0 e)
          | inr e ↦ inr (later.0 (ground arith))
        ],
        λ s. elim s [ inl m ↦ ground (arith, met.1 m) | inr t ↦ ground (arith, later.1 t) ],
      )

  -- A catalog is for a user exactly if it has no restrictions, or the user has attributes and one
  -- of the restrictions is met by them: its attribute is there with a text, or a list with a text,
  -- that its pattern matches.
  pub is_for_user_iff :
      (attributes : Option (Dict Any)) (c : CatalogConfig)
      → (is_for_user re attributes c ≡ true) ↔ (
          (c.restrictions ≡ [])
          ⊎ ((attrs : Dict Any) × (attributes ≡ some attrs) × Some attrs c.restrictions))
  unfolding is_for_user
  is_for_user_iff attributes c = (
    λ h. elim (Option-cases attributes) [
      | inl e ↦ inl (ground arith)
      | inr (attrs, e) ↦ elim (Bool-cases (some_met re attrs c.restrictions)) [
        | inl m ↦ inr (attrs, e, (some_met_iff attrs c.restrictions).0 m)
        | inr m ↦ inl (ground arith)
      ]
    ],
    λ s. elim s [
      | inl e ↦ ground arith
      | inr (attrs, e, m) ↦ ground (arith, (some_met_iff attrs c.restrictions).1 m)
    ],
  )

abbrev pub without_packages : Catalog → Catalog
without_packages c = record c { packages = [] }

module _ (repo : PackageRepository) where
  open repo use {State}

  -- If the listing of the catalogs that pass a test succeeds, it has just these catalogs, in the
  -- order of the configuration, each with the identifier, the texts, the status and the highlights
  -- that are configured.
  pub build_catalogs_lem :
      (test : CatalogConfig → Bool) (cfgs : List CatalogConfig) (s : State) (out : List Catalog)
      → (build_catalogs repo test cfgs s).0 ≡ ok out
      → map without_packages out ≡ map (λ c. catalog_of c []) (passing test cfgs)
  unfolding build_catalogs catalog_of
  build_catalogs_lem test [] s out h = ground arith
  build_catalogs_lem test (c ∷ cs) s out h = elim (Bool-cases (test c)) [
    | inr e ↦ ground (arith, build_catalogs_lem test cs s out (ground arith))
    | inl e ↦
        let s' = (repo.list_packages c.id s).1 in
        elim (Result-cases (repo.list_packages c.id s).0) [
          | inr (f, l) ↦ ground arith
          | inl (pkgs, l) ↦ elim (Result-cases (build_catalogs repo test cs s').0) [
            | inr (f, r) ↦ ground arith
            | inl (rest, r) ↦ ground (arith, build_catalogs_lem test cs s' rest r)
          ]
        ]
  ]

  -- What holds of every list of packages that the repository gives holds of those in a listing.
  pub build_catalogs-All :
      (P : String → List Package → Type 0)
      → ((i : String) (s : State) (ps : List Package) → (repo.list_packages i s).0 ≡ ok ps → P i ps)
      → (test : CatalogConfig → Bool) (cfgs : List CatalogConfig) (s : State) (out : List Catalog)
      → (build_catalogs repo test cfgs s).0 ≡ ok out
      → All (λ c. P c.id c.packages) out
  unfolding build_catalogs catalog_of
  build_catalogs-All P holds test [] s out h =
      let empty : [] ≡ out = ground arith in rw (← empty) tt
  build_catalogs-All P holds test (c ∷ cs) s out h = elim (Bool-cases (test c)) [
    | inr e ↦ build_catalogs-All P holds test cs s out (ground arith)
    | inl e ↦
        let s' = (repo.list_packages c.id s).1 in
        elim (Result-cases (repo.list_packages c.id s).0) [
          | inr (f, l) ↦ ground arith
          | inl (pkgs, l) ↦ elim (Result-cases (build_catalogs repo test cs s').0) [
            | inr (f, r) ↦ ground arith
            | inl (rest, r) ↦
                let whole : catalog_of c pkgs ∷ rest ≡ out = ground arith in
                rw (← whole) (holds c.id s pkgs l, build_catalogs-All P holds test cs s' rest r)
          ]
        ]
  ]

  -- The package of a catalog is found exactly if the catalog is configured and the repository
  -- finds it there.
  pub get_package_iff :
      (cfgs : List CatalogConfig) (i n : String) (s : State) (p : PackageRef)
      → ((get_package repo cfgs i n s).0 ≡ ok p) ↔ (
          ((c : CatalogConfig) × (find_catalog cfgs i ≡ ok c))
          × ((repo.get_package i n s).0 ≡ ok (some p)))
  unfolding get_package found_package
  get_package_iff cfgs i n s p = (
    λ h. elim (Result-cases (find_catalog cfgs i)) [
      | inl (c, e) ↦ ((c, e), ground arith)
      | inr (f, e) ↦ ground arith
    ],
    λ ((c, e), f). ground arith,
  )
