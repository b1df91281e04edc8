-- ===== src/Services/Domain.antt =====
-- services/domain/catalog.go, services/domain/package.go and internal/tools/localizedstring.go
use onyxia_backend.Common.{
  String, Option, none, some, List, [], ◌∷◌, Dict, ◌==◌, is_empty, errorf, Result, ok, err,
  if◌then◌else◌,
}
use onyxia_backend.Common.Text.{trim_suffix, ◌++◌}
use onyxia_backend.Dpop.Request.{Url}

-- `typ` is "plain" or "multi"; the zero value has the empty type.
pub record LocalizedString : Type 0 where
  pub typ : String
  pub plain : String
  pub multi : Option (Dict String)

-- The cases of the `any` that `NewLocalizedString` takes; `other` has the name of another type.
pub data Localizable : Type 0 where
  text : String → Localizable
  multi_lang : Dict String → Localizable
  nothing : Localizable
  other : String → Localizable

abbrev pub zero_localized_string : LocalizedString
zero_localized_string = record { typ = ""; plain = ""; multi = none }

unfoldable pub new_localized_string : Localizable → Result LocalizedString
new_localized_string (text v) = ok (record { typ = "plain"; plain = v; multi = none })
new_localized_string (multi_lang v) =
    if is_empty v
    then err (errorf "multi-lang string cannot be empty" [])
    else ok (record { typ = "multi"; plain = ""; multi = some v })
new_localized_string nothing = err (errorf "nil value provided" [])
new_localized_string (other t) = err (errorf "unsupported type %T for LocalizedString" (t ∷ []))

unfoldable pub get_plain : LocalizedString → Option String
get_plain s = if s.typ == "plain" then some s.plain else none

-- The map, which may be nil, if the text has languages
unfoldable pub get_multi : LocalizedString → Option (Option (Dict String))
get_multi s = if s.typ == "multi" then some s.multi else none

pub record Package : Type 0 where
  pub catalog_id : String
  pub name : String
  pub description : String
  pub home_url : Url
  pub icon_url : Url

pub record PackageRef : Type 0 where
  pub pkg : Package
  pub versions : List String

pub record PackageVersion : Type 0 where
  pub pkg : Package
  pub version : String
  pub repo_url : String

unfoldable pub chart_ref : PackageVersion → String
unfolding trim_suffix
chart_ref r = trim_suffix b'/' r.repo_url ++ "/" ++ r.pkg.name

pub record Catalog : Type 0 where
  pub id : String
  pub name : LocalizedString
  pub description : LocalizedString
  pub status : String
  pub highlighted_packages : List String
  pub packages : List Package
