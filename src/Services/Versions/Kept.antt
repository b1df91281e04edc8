-- ===== src/Services/Versions/Kept.antt =====
-- What the filters keep.
use onyxia_backend.Common.{
  ℕ, zero, suc, ◌≤◌, String, ◌≡◌, inl, inr, refl, Bool, true, false, not, ◌||◌, Option, none, some,
  List, [], ◌∷◌, Dict, lookup, insert, lookup-insert, ◌==◌, ok, if◌then◌else◌, length, take, arith,
  eq_iff, Option-cases, Bool-cases,
}
use onyxia_backend.Common.Int.{ℤ, pos}
use onyxia_backend.Services.Config.{CatalogConfig, is_set}
use onyxia_backend.Services.Config.Valid.{HasMode}
use onyxia_backend.Services.Versions.{
  VersionFilter, max_number, all_versions, latest_only, skip_patches, minor, skip_seen, apply,
  version_filter_from,
}

-- One of the versions has the minor version `m`.
abbrev pub has_minor : String → List String → Bool
has_minor m [] = false
has_minor m (v ∷ vs) = elim (minor v) [ none ↦ has_minor m vs | some n ↦ n == m || has_minor m vs ]

-- A version is wanted after the versions `earlier` if none of them has its minor version.
abbrev pub is_first : (earlier : List String) → String → Bool
is_first earlier v = elim (minor v) [ none ↦ true | some m ↦ not (has_minor m earlier) ]

-- The versions that are the first of their minor version, those before the list counted in
abbrev pub firsts : (earlier : List String) → List String → List String
firsts earlier [] = []
firsts earlier (v ∷ vs) =
    let rest = firsts (v ∷ earlier) vs in if is_first earlier v then v ∷ rest else rest

-- `seen` has just the minor versions of the versions before.
abbrev Tells : Dict (Unit {0}) → List String → Type 0
Tells seen earlier = (m : String) → is_set (lookup m seen) ≡ has_minor m earlier

Tells-insert :
    (seen : Dict (Unit {0})) (earlier : List String) (v m : String)
    → Tells seen earlier
    → minor v ≡ some m
    → Tells (insert m tt seen) (v ∷ earlier)
Tells-insert seen earlier v m h e n = ground (arith, lookup-insert m n tt seen, h n)

Tells-again :
    (seen : Dict (Unit {0})) (earlier : List String) (v m : String)
    → Tells seen earlier
    → minor v ≡ some m
    → is_set (lookup m seen) ≡ true
    → Tells seen (v ∷ earlier)
Tells-again seen earlier v m h e found n = ground (arith, eq_iff m n, h n, h m)

Tells-without :
    (seen : Dict (Unit {0})) (earlier : List String) (v : String)
    → Tells seen earlier
    → minor v ≡ none
    → Tells seen (v ∷ earlier)
Tells-without seen earlier v h e n = ground (arith, h n)

skip_seen-eq-firsts :
    (seen : Dict (Unit {0})) (earlier vs : List String)
    → Tells seen earlier
    → skip_seen seen vs ≡ firsts earlier vs
unfolding skip_seen
skip_seen-eq-firsts seen earlier [] h = refl
skip_seen-eq-firsts seen earlier (v ∷ vs) h = elim (Option-cases (minor v)) [
  | inl e ↦
      let rest = skip_seen-eq-firsts seen (v ∷ earlier) vs (Tells-without seen earlier v h e) in
      ground (arith, rest)
  | inr (m, e) ↦ elim (Bool-cases (is_set (lookup m seen))) [
    | inl f ↦
        let rest = skip_seen-eq-firsts seen (v ∷ earlier) vs (Tells-again seen earlier v m h e f) in
        ground (arith, rest, h m)
    | inr f ↦
        let rest =
          skip_seen-eq-firsts (insert m tt seen) (v ∷ earlier) vs
            (Tells-insert seen earlier v m h e) in
        ground (arith, rest, h m)
  ]
]

-- Skipping patches keeps, in their order, the versions that are the first of their major and
-- minor number in the list, and those that have no two numbers.
pub apply-skip_patches : (vs : List String) → apply skip_patches vs ≡ some (firsts [] vs)
unfolding apply lookup
apply-skip_patches vs = rw (skip_seen-eq-firsts [] [] vs (λ m. refl)) refl

-- The versions that a mode means to offer
abbrev pub offered : {mode : String} {max : Option ℤ} → HasMode mode max → List String → List String
offered (HasMode.all_versions e g) vs = vs
offered (HasMode.latest_only e g) vs = take 1 vs
offered (HasMode.skip_patches e g) vs = firsts [] vs
offered (HasMode.max_number n e g p) vs = take n vs

take_all : (n : ℕ) (vs : List String) → length vs ≤ n → take n vs ≡ vs
take_all zero [] h = refl
take_all zero (v ∷ vs) h = ground arith
take_all (suc n) [] h = refl
take_all (suc n) (v ∷ vs) h = ground (arith, take_all n vs)

apply-latest_only : (vs : List String) → apply latest_only vs ≡ some (take 1 vs)
unfolding apply
apply-latest_only [] = refl
apply-latest_only (v ∷ vs) = refl

apply-max_number : (n : ℕ) (vs : List String) → apply (max_number (pos n)) vs ≡ some (take n vs)
unfolding apply
apply-max_number n vs = ground (arith, take_all n vs)

-- The configuration of every mode that is accepted for a catalog gives a filter, and the filter
-- never panics: of the versions of any package it keeps all, the first, the first of every minor
-- version, or as many of the first as the number says.
pub version_filter_from-apply :
    (c : CatalogConfig) (m : HasMode c.multiple_services_mode c.max_number_of_versions)
    → (f : VersionFilter) × (version_filter_from c ≡ ok f)
      × ((vs : List String) → apply f vs ≡ some (offered m vs))
unfolding version_filter_from
version_filter_from-apply c (HasMode.all_versions e g) =
    (all_versions, rw e refl, λ vs. unfold apply in refl)
version_filter_from-apply c (HasMode.latest_only e g) = (latest_only, rw e refl, apply-latest_only)
version_filter_from-apply c (HasMode.skip_patches e g) =
    (skip_patches, rw e refl, apply-skip_patches)
version_filter_from-apply c (HasMode.max_number n e g p) =
    (max_number (pos n), rw (e, g) refl, apply-max_number n)

firsts_lem :
    (m : String) (earlier vs : List String)
    → (has_minor m earlier || has_minor m (firsts earlier vs))
      ≡ (has_minor m earlier || has_minor m vs)
firsts_lem m earlier [] = refl
firsts_lem m earlier (v ∷ vs) = elim (Option-cases (minor v)) [
  | inl e ↦ ground (arith, firsts_lem m (v ∷ earlier) vs)
  | inr (n, e) ↦ ground (arith, eq_iff n m, firsts_lem m (v ∷ earlier) vs)
]

-- Skipping patches loses no minor version: what it keeps has the major and minor numbers of the
-- given versions, all of them and no others.
pub has_minor-apply :
    (m : String) (vs out : List String)
    → apply skip_patches vs ≡ some out
    → has_minor m out ≡ has_minor m vs
has_minor-apply m vs out h = ground (arith, apply-skip_patches vs, firsts_lem m [] vs)
