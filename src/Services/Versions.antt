-- ===== src/Services/Versions.antt =====
-- services/adapters/helm/version_filter.go: which versions of a package are offered
pub mod Kept
use onyxia_backend.Common.{
  ℕ, String, ◌≡◌, Bool, true, false, not, Option, none, some, List, [], ◌∷◌, Dict, lookup, insert,
  ◌==◌, errorf, Result, ok, err, if◌then◌else◌, leb, length, take,
}
use onyxia_backend.Common.Int.{ℤ, pos, negsuc}
use onyxia_backend.Common.Text.{split_n, ◌++◌}
use onyxia_backend.Services.Config.{CatalogConfig, is_set}

pub data VersionFilter : Type 0 where
  all_versions latest_only skip_patches : VersionFilter
  max_number : ℤ → VersionFilter

-- The major and the minor number of a version, if it has both
unfoldable pub minor : String → Option String
unfolding split_n
minor v = elim (split_n b'.' 3 v) [
  | [] ↦ none
  | a ∷ [] ↦ none
  | a ∷ b ∷ rest ↦ some (a ++ "." ++ b)
]

-- The loop of `skipPatches.apply`; `seen` has a key for every minor version before.
skip_seen : Dict (Unit {0}) → List String → List String
unfolding minor lookup insert
skip_seen seen [] = []
skip_seen seen (v ∷ vs) =
    let unseen = skip_seen seen vs in
    elim (minor v) [
      | none ↦ v ∷ unseen
      | some m ↦
          let later = skip_seen (insert m tt seen) vs in
          if is_set (lookup m seen) then unseen else v ∷ later
    ]

-- `apply`; `none` is the panic of a slice with a negative bound.
unfoldable pub apply : VersionFilter → List String → Option (List String)
unfolding skip_seen
apply all_versions versions = some versions
apply latest_only [] = some []
apply latest_only (v ∷ vs) = some (v ∷ [])
apply skip_patches versions = some (skip_seen [] versions)
apply (max_number (pos n)) versions =
    if leb (length versions) n then some versions else some (take n versions)
apply (max_number (negsuc n)) versions = none

unfoldable pub version_filter_from : CatalogConfig → Result VersionFilter
version_filter_from cfg =
    if cfg.multiple_services_mode == "latest"
    then ok latest_only
    else if cfg.multiple_services_mode == "skipPatches"
    then ok skip_patches
    else if cfg.multiple_services_mode == "maxNumber"
    then elim cfg.max_number_of_versions [
      | none ↦ err (
          errorf "catalog %q: multipleServicesMode=maxNumber requires maxNumberOfVersions"
            (cfg.id ∷ []))
      | some n ↦ ok (max_number n)
    ]
    else ok all_versions
