-- ===== src/Services/Config/Valid.antt =====
-- Which configurations of catalogs are accepted.
use onyxia_backend.Common.{
  ℕ, String, ◌≡◌, ◌≢◌, ◌↔◌, ◌⊎◌, inl, inr, refl, ◌<◌, true, Option, none, some, List, [], ◌∷◌, ◌==◌,
  ok, All, arith, eq_iff, Bool-cases, Option-cases, Result-cases,
}
use onyxia_backend.Common.Int.{ℤ, pos, negsuc}
use onyxia_backend.Common.Text.{trim_space}
use onyxia_backend.Services.Config.{
  Restriction, OciPackage, CatalogConfig, Regexps, is_positive, check_mode, check_restrictions,
  check_packages, validate_common, validate_oci, check_type, validate_catalog_config,
}

-- How the versions of a package are chosen: by a mode that takes no number, or by a number.
pub data HasMode (mode : String) (max : Option ℤ) : Type 0 where
  all_versions : mode ≡ "all" → max ≡ none → HasMode mode max
  latest_only : mode ≡ "latest" → max ≡ none → HasMode mode max
  skip_patches : mode ≡ "skipPatches" → max ≡ none → HasMode mode max
  max_number : (n : ℕ) → mode ≡ "maxNumber" → max ≡ some (pos n) → 0 < n → HasMode mode max

positive_number : (o : Option ℤ) → is_positive o ≡ true → (n : ℕ) × (o ≡ some (pos n)) × (0 < n)
positive_number (some (pos n)) h = (n, refl, ground arith)
positive_number (some (negsuc n)) h = ground arith
positive_number none h = ground arith

check_mode-HasMode :
    (cc : CatalogConfig)
    → check_mode cc ≡ ok tt
    → HasMode cc.multiple_services_mode cc.max_number_of_versions
unfolding check_mode
check_mode-HasMode cc h = elim (Option-cases cc.max_number_of_versions) [
  | inl e ↦ elim (Bool-cases (cc.multiple_services_mode == "all")) [
    | inl m ↦ all_versions ((eq_iff _ _).0 m) e
    | inr m ↦ elim (Bool-cases (cc.multiple_services_mode == "latest")) [
      | inl m' ↦ latest_only ((eq_iff _ _).0 m') e
      | inr m' ↦ elim (Bool-cases (cc.multiple_services_mode == "skipPatches")) [
        | inl k ↦ skip_patches ((eq_iff _ _).0 k) e
        | inr k ↦ ground arith
      ]
    ]
  ]
  | inr (z, e) ↦
      let (n, given, more) = positive_number cc.max_number_of_versions (ground arith) in
      max_number n (ground (arith, eq_iff cc.multiple_services_mode "maxNumber")) given more
]

HasMode-check_mode :
    (c : CatalogConfig)
    → HasMode c.multiple_services_mode c.max_number_of_versions
    → check_mode c ≡ ok tt
unfolding check_mode
HasMode-check_mode c (all_versions m e) = rw (m, e) refl
HasMode-check_mode c (latest_only m e) = rw (m, e) refl
HasMode-check_mode c (skip_patches m e) = rw (m, e) refl
HasMode-check_mode c (max_number n m e p) = rw (m, e) (ground arith)

module _ (re : Regexps) where
  -- The restriction names an attribute, and its pattern compiles.
  pub record IsUsable (r : Restriction) : Type 0 where
    pub named : trim_space r.user_attribute_key ≢ ""
    pub pattern : re.Regexp
    pub compiled : re.compile r.match_pattern ≡ ok pattern

  check_restrictions_iff :
      (id : String) (rs : List Restriction)
      → (check_restrictions re id rs ≡ ok tt) ↔ All IsUsable rs
  unfolding check_restrictions
  check_restrictions_iff id [] = (λ h. tt, λ h. refl)
  check_restrictions_iff id (r ∷ rs) =
      let later = check_restrictions_iff id rs in
      let named = eq_iff (trim_space r.user_attribute_key) "" in
      (
        λ h. elim (Result-cases (re.compile r.match_pattern)) [
          | inl (p, e) ↦ (
            record { named = ground (arith, named); pattern = p; compiled = e },
            later.0 (ground arith),
          )
          | inr (f, e) ↦ ground arith
        ],
        λ a. ground (arith, named, a.0.named, a.0.compiled, later.1 a.1),
      )

  -- What the type of a catalog asks of its packages
  pub data HasPackages (c : CatalogConfig) : Type 0 where
    helm : c.catalog_type ≡ "helm" → c.packages ≡ none → HasPackages c
    oci :
        (p : OciPackage) (ps : List OciPackage)
        → c.catalog_type ≡ "oci"
        → c.packages ≡ some (p ∷ ps)
        → All (λ q. q.name ≢ "") (p ∷ ps)
        → HasPackages c

  pub record IsValid (c : CatalogConfig) : Type 0 where
    pub status : (c.status ≡ "PROD") ⊎ (c.status ≡ "TEST")
    pub mode : HasMode c.multiple_services_mode c.max_number_of_versions
    pub identified : c.id ≢ ""
    pub named : c.name ≢ []
    pub restricted : All IsUsable c.restrictions
    pub packaged : HasPackages c

  check_packages_iff :
      (id : String) (ps : List OciPackage)
      → (check_packages re id ps ≡ ok tt) ↔ All (λ q. q.name ≢ "") ps
  unfolding check_packages
  check_packages_iff id [] = (λ h. tt, λ h. refl)
  check_packages_iff id (p ∷ ps) =
      let later = check_packages_iff id ps in
      let named = eq_iff p.name "" in
      (
        λ h. (ground (arith, named), later.0 (ground arith)),
        λ a. ground (arith, named, a.0, later.1 a.1),
      )

  some_package :
      (c : CatalogConfig)
      → validate_oci re c ≡ ok tt
      → (p : OciPackage) × (ps : List OciPackage) × (c.packages ≡ some (p ∷ ps))
  unfolding validate_oci
  some_package c h = elim (Option-cases c.packages) [
    | inl e ↦ ground arith
    | inr ([], e) ↦ ground arith
    | inr (p ∷ ps, e) ↦ (p, ps, e)
  ]

  check_type-HasPackages : (c : CatalogConfig) → check_type re c ≡ ok tt → HasPackages c
  unfolding check_type validate_oci
  check_type-HasPackages c h = elim (Bool-cases (c.catalog_type == "helm")) [
    | inl t ↦ helm ((eq_iff _ _).0 t) (ground arith)
    | inr t ↦ elim (Bool-cases (c.catalog_type == "oci")) [
      | inl o ↦
          let (p, ps, given) = some_package c (ground arith) in
          oci p ps ((eq_iff _ _).0 o) given ((check_packages_iff c.id (p ∷ ps)).0 (ground arith))
      | inr o ↦ ground arith
    ]
  ]

  HasPackages-check_type : (c : CatalogConfig) → HasPackages c → check_type re c ≡ ok tt
  unfolding check_type validate_oci
  HasPackages-check_type c (helm t e) = rw (t, e) refl
  HasPackages-check_type c (oci p ps t e named) =
      rw (t, e) ((check_packages_iff c.id (p ∷ ps)).1 named)

  validate_common_iff :
      (c : CatalogConfig)
      → (validate_common re c ≡ ok tt) ↔ (
          ((c.status ≡ "PROD") ⊎ (c.status ≡ "TEST"))
          × HasMode c.multiple_services_mode c.max_number_of_versions
          × (c.id ≢ "")
          × (c.name ≢ [])
          × All IsUsable c.restrictions)
  unfolding validate_common
  validate_common_iff c =
      let id = eq_iff c.id "" in
      let prod = eq_iff c.status "PROD" in
      let test = eq_iff c.status "TEST" in
      let restricted = check_restrictions_iff c.id c.restrictions in
      (
        λ h. (
          ground (arith, prod, test),
          check_mode-HasMode c (ground arith),
          ground (arith, id),
          ground arith,
          restricted.0 (ground arith),
        ),
        λ (s, m, i, n, r). ground (arith, prod, test, id, HasMode-check_mode c m, restricted.1 r),
      )

  -- A configuration of a catalog is accepted exactly if its status is one of the two, its mode is
  -- known and has a positive number just where it takes one, it has an identifier and a name, its
  -- restrictions name attributes and their patterns compile, and it is a Helm catalog without
  -- packages or an OCI catalog with packages, all of which have names.
  pub validate_catalog_config_iff :
      (c : CatalogConfig) → (validate_catalog_config re c ≡ ok tt) ↔ IsValid c
  unfolding validate_catalog_config
  validate_catalog_config_iff c = (
    λ h.
        let (s, m, i, n, r) = (validate_common_iff c).0 (ground arith) in
        record {
          status = s;
          mode = m;
          identified = i;
          named = n;
          restricted = r;
          packaged = check_type-HasPackages c (ground arith);
        },
    λ v. ground (
      arith,
      HasPackages-check_type c v.packaged,
      (validate_common_iff c).1 (v.status, v.mode, v.identified, v.named, v.restricted),
    ),
  )
