-- ===== src/Services/Helm/Packages/NoPanic.antt =====
-- The methods of a repository that is made from a valid configuration do not panic.
use onyxia_backend.Common.{
  ℕ, suc, String, ◌≡◌, ◌≢◌, inl, inr, refl, true, false, Option, none, some, List, [], ◌∷◌, lookup,
  Error, ok, All, arith, Bool-cases, Option-cases, Result-cases, ◌==◌,
}
use onyxia_backend.Common.Panics.{panicked}
use onyxia_backend.Services.Config.{CatalogConfig, Regexps}
use onyxia_backend.Services.Config.{validate_catalogs_config}
use onyxia_backend.Services.Config.Distinct.{validate_catalogs_config_iff}
use onyxia_backend.Services.Config.Valid.{HasMode}
use onyxia_backend.Services.Versions.Kept.{offered, version_filter_from-apply}
use onyxia_backend.Services.Helm.{
  ChartVersion, Entries, HelmLib, HelmPackageRepository, new_package_repository,
}
use onyxia_backend.Services.Helm.Index.{
  extract_versions, filtered, broken, row, has_version, load_helm_index, list_entries,
  list_helm_packages, ref_of, get_helm_package, resolve_in, resolve_helm_package,
}
use onyxia_backend.Services.Helm.Packages.{list_packages, get_package, resolve_package}
use onyxia_backend.Services.Helm.Sound.{IsSound, new_package_repository-IsSound}

-- The filter of a mode that is accepted keeps what the mode means to offer.
pub filtered_lem :
    (c : CatalogConfig) (m : HasMode c.multiple_services_mode c.max_number_of_versions)
    (vs : List String)
    → filtered c vs ≡ some (offered m vs)
unfolding filtered
filtered_lem c m vs =
    let (f, made, keeps) = version_filter_from-apply c m in ground (arith, keeps vs)

-- `LoadIndexFile` drops nil pointers from an index.
abbrev pub IsClean : Entries → Type 0
IsClean = All (λ e. All (λ v. v ≢ none) e.1)

abbrev pub LoadsClean : HelmLib → Type 0
LoadsClean lib =
    (cache i : String) (s : lib.State) (idx : Entries)
    → (lib.load_index_file cache i s).0 ≡ ok idx
    → IsClean idx

pub lookup-IsClean :
    (idx : Entries) (name : String) (vs : List (Option ChartVersion))
    → IsClean idx
    → lookup name idx ≡ some vs
    → All (λ v. v ≢ none) vs
unfolding lookup
lookup-IsClean [] name vs clean h = cc
lookup-IsClean ((n, ws) ∷ idx) name vs clean h = elim (Bool-cases (n == name)) [
  | inl e ↦ let same : ws ≡ vs = ground arith in rw (← same) (clean.0)
  | inr e ↦ lookup-IsClean idx name vs clean.1 (ground arith)
]

has_version-ne-none :
    (version : String) (vs : List (Option ChartVersion))
    → All (λ v. v ≢ none) vs
    → has_version version vs ≢ none
unfolding has_version
has_version-ne-none version [] clean h = cc
has_version-ne-none version (none ∷ vs) clean h = clean.0 refl
has_version-ne-none version (some v ∷ vs) clean h =
    ground (arith, has_version-ne-none version vs clean.1)

module _ (lib : HelmLib) where
  open lib use {State, Repo}

  -- A panic in a row, in an answer or in a search comes of a nil pointer or of a bad mode.
  row-ne-broken :
      (c : CatalogConfig) (name : String) (vs : List (Option ChartVersion))
      → All (λ v. v ≢ none) vs
      → row lib c name vs ≢ broken
  unfolding row
  row-ne-broken c name [] clean h = ground arith
  row-ne-broken c name (none ∷ vs) clean h = clean.0 refl
  row-ne-broken c name (some v ∷ vs) clean h = ground arith

  list_entries-ne-panicked :
      (ctx_err : ℕ → Option Error) (c : CatalogConfig) (n : ℕ) (idx : Entries)
      → IsClean idx
      → list_entries lib ctx_err c n idx ≢ panicked
  unfolding list_entries
  list_entries-ne-panicked ctx_err c n [] clean h = ground arith
  list_entries-ne-panicked ctx_err c n ((name, vs) ∷ idx) clean h =
      let later = list_entries-ne-panicked ctx_err c (suc n) idx clean.1 in
      ground (arith, later, row-ne-broken c name vs clean.0)

  ref_of-ne-panicked :
      (c : CatalogConfig) (name : String) (found : Option (List (Option ChartVersion)))
      → HasMode c.multiple_services_mode c.max_number_of_versions
      → ((vs : List (Option ChartVersion)) → found ≡ some vs → All (λ v. v ≢ none) vs)
      → ref_of lib c name found ≢ panicked
  unfolding ref_of
  ref_of-ne-panicked c name none m clean h = ground arith
  ref_of-ne-panicked c name (some []) m clean h = ground arith
  ref_of-ne-panicked c name (some (none ∷ vs)) m clean h = (clean (none ∷ vs) refl).0 refl
  ref_of-ne-panicked c name (some (some v ∷ vs)) m clean h =
      ground (arith, filtered_lem c m (extract_versions (some v ∷ vs)))

  resolve_in-ne-panicked :
      (i name version : String) (cr : Repo) (found : Option (List (Option ChartVersion)))
      → ((vs : List (Option ChartVersion)) → found ≡ some vs → All (λ v. v ≢ none) vs)
      → resolve_in lib i name version cr found ≢ panicked
  unfolding resolve_in
  resolve_in-ne-panicked i name version cr none clean h = ground arith
  resolve_in-ne-panicked i name version cr (some vs) clean h =
      elim (Option-cases (has_version version vs)) [
        | inl e ↦ has_version-ne-none version vs (clean vs refl) e
        | inr (true, e) ↦ ground arith
        | inr (false, e) ↦ ground arith
      ]

  module _ (h : HelmPackageRepository lib) (clean : LoadsClean lib) where
    pub load_helm_index-IsClean :
        (i : String) (s : State) (cr : Repo) (idx : Entries)
        → (load_helm_index lib h i s).0 ≡ ok (cr, idx)
        → IsClean idx
    unfolding load_helm_index
    load_helm_index-IsClean i s cr idx e = elim (Option-cases (lookup i h.repos)) [
      | inl f ↦ ground arith
      | inr (cr', f) ↦
          let s' = (lib.download_index_file h.cache cr' s).1 in
          elim (Result-cases (lib.download_index_file h.cache cr' s).0) [
            | inr (x, d) ↦ ground arith
            | inl (u, d) ↦ elim (Result-cases (lib.load_index_file h.cache i s').0) [
              | inr (x, l) ↦ ground arith
              | inl (idx', l) ↦ clean h.cache i s' idx (ground arith)
            ]
          ]
    ]

  module _ (h : HelmPackageRepository lib) (sound : IsSound lib h) (clean : LoadsClean lib) where
    list_packages-ne-panicked :
        (ctx_err : ℕ → Option Error) (i : String) (s : State)
        → (list_packages lib h ctx_err i s).0 ≢ panicked
    unfolding list_packages list_helm_packages
    list_packages-ne-panicked ctx_err i s p = elim (Option-cases (lookup i h.catalogs)) [
      | inl f ↦ ground arith
      | inr (c, f) ↦ elim (Result-cases (load_helm_index lib h c.id s).0) [
        | inr (e, l) ↦ ground arith
        | inl ((cr, idx), l) ↦ ground (
          arith,
          list_entries-ne-panicked ctx_err c 0 idx
              (load_helm_index-IsClean h clean c.id s cr idx l),
        )
      ]
    ]

    get_package-ne-panicked :
        (i name : String) (s : State) → (get_package lib h i name s).0 ≢ panicked
    unfolding get_package get_helm_package
    get_package-ne-panicked i name s p = elim (Option-cases (lookup i h.catalogs)) [
      | inl f ↦ ground arith
      | inr (c, f) ↦ elim (Result-cases (load_helm_index lib h c.id s).0) [
        | inr (e, l) ↦ ground arith
        | inl ((cr, idx), l) ↦
            let clean_entry = λ (vs : List (Option ChartVersion)).
              lookup-IsClean idx name vs (load_helm_index-IsClean h clean c.id s cr idx l) in
            ground
              (arith, ref_of-ne-panicked c name (lookup name idx) (sound i c f).mode clean_entry)
      ]
    ]

    resolve_package-ne-panicked :
        (i name version : String) (s : State)
        → (resolve_package lib h i name version s).0 ≢ panicked
    unfolding resolve_package resolve_helm_package
    resolve_package-ne-panicked i name version s p = elim (Option-cases (lookup i h.catalogs)) [
      | inl f ↦ ground arith
      | inr (c, f) ↦ elim (Result-cases (load_helm_index lib h i s).0) [
        | inr (e, l) ↦ ground arith
        | inl ((cr, idx), l) ↦
            let clean_entry = λ (vs : List (Option ChartVersion)).
              lookup-IsClean idx name vs (load_helm_index-IsClean h clean i s cr idx l) in
            ground (arith, resolve_in-ne-panicked i name version cr (lookup name idx) clean_entry)
      ]
    ]

  -- If the configuration of the catalogs passed the validation, the methods of the repository that
  -- is made from it never panic, provided that the indexes that are loaded hold no nil pointer.
  pub never_panics :
      (re : Regexps) (cs : List CatalogConfig) (cache_dir : String) (h : HelmPackageRepository lib)
      → validate_catalogs_config re cs ≡ ok tt
      → new_package_repository lib cs cache_dir ≡ ok h
      → LoadsClean lib
      → (ctx_err : ℕ → Option Error) (i name version : String) (s : State)
      → ((list_packages lib h ctx_err i s).0 ≢ panicked)
        × ((get_package lib h i name s).0 ≢ panicked)
        × ((resolve_package lib h i name version s).0 ≢ panicked)
  never_panics re cs cache_dir h valid made clean ctx_err i name version s =
      let all_valid = ((validate_catalogs_config_iff re cs).0 valid).0 in
      let sound = new_package_repository-IsSound lib re cs cache_dir h all_valid made in
      (
        list_packages-ne-panicked h sound clean ctx_err i s,
        get_package-ne-panicked h sound clean i name s,
        resolve_package-ne-panicked h sound clean i name version s,
      )
