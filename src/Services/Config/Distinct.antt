-- ===== src/Services/Config/Distinct.antt =====
-- When a list of catalogs is accepted.
use onyxia_backend.Common.{
  String, ◌≡◌, ◌≢◌, ◌↔◌, refl, none, List, [], ◌∷◌, Dict, lookup, insert, lookup-insert, ok, All,
  arith, eq_iff,
}
use onyxia_backend.Services.Config.Valid.{IsValid, validate_catalog_config_iff}
use onyxia_backend.Services.Config.{
  CatalogConfig, Regexps, check_catalogs, validate_catalogs_config,
}

-- No catalog has an identifier that stands in `seen` or that an earlier catalog has.
abbrev HasNewIds : Dict (Unit {0}) → List CatalogConfig → Type 0
HasNewIds seen = All (λ c. lookup c.id seen ≡ none)

abbrev pub HasDistinctIds : List CatalogConfig → Type 0
HasDistinctIds [] = Unit
HasDistinctIds (c ∷ cs) = All (λ d. c.id ≢ d.id) cs × HasDistinctIds cs

new_ids :
    (i : String) (seen : Dict (Unit {0})) (cs : List CatalogConfig)
    → HasNewIds (insert i tt seen) cs ↔ (All (λ d. i ≢ d.id) cs × HasNewIds seen cs)
new_ids i seen [] = (λ h. (tt, tt), λ h. tt)
new_ids i seen (c ∷ cs) =
    let later = new_ids i seen cs in
    let found = lookup-insert i c.id tt seen in
    let same = eq_iff i c.id in
    (
      λ h. (
        (ground (arith, found, same, h.0), (later.0 h.1).0),
        (ground (arith, found, same, h.0), (later.0 h.1).1),
      ),
      λ h. (ground (arith, found, same, h.0.0, h.1.0), later.1 (h.0.1, h.1.1)),
    )

nothing_seen : (cs : List CatalogConfig) → HasNewIds [] cs
unfolding lookup
nothing_seen [] = tt
nothing_seen (c ∷ cs) = (refl, nothing_seen cs)

module _ (re : Regexps) where
  check_catalogs_iff :
      (seen : Dict (Unit {0})) (cs : List CatalogConfig)
      → (check_catalogs re seen cs ≡ ok tt)
        ↔ (All (IsValid re) cs × HasNewIds seen cs × HasDistinctIds cs)
  unfolding check_catalogs
  check_catalogs_iff seen [] = (λ h. (tt, tt, tt), λ h. refl)
  check_catalogs_iff seen (c ∷ cs) =
      let later = check_catalogs_iff (insert c.id tt seen) cs in
      let new = new_ids c.id seen cs in
      let valid = validate_catalog_config_iff re c in
      (
        λ h.
            let (v, n, d) = later.0 (ground arith) in
            let (apart, n') = new.0 n in
            ((valid.0 (ground arith), v), (ground arith, n'), (apart, d)),
        λ (v, n, d). ground (arith, valid.1 v.0, n.0, later.1 (v.1, new.1 (d.0, n.1), d.1)),
      )

  -- A list of catalogs is accepted exactly if every catalog in it is valid and no two of them have
  -- one identifier.
  pub validate_catalogs_config_iff :
      (cs : List CatalogConfig)
      → (validate_catalogs_config re cs ≡ ok tt) ↔ (All (IsValid re) cs × HasDistinctIds cs)
  unfolding validate_catalogs_config
  validate_catalogs_config_iff cs = (
    λ h. let (v, n, d) = (check_catalogs_iff [] cs).0 h in (v, d),
    λ (v, d). (check_catalogs_iff [] cs).1 (v, nothing_seen cs, d),
  )
