-- ===== src/Onboarding/Adapter/Convert.antt =====
-- Which limits a quota turns into.
use onyxia_backend.Common.{
  String, ◌≡◌, ◌↔◌, refl, Option, none, some, [], ◌∷◌, Dict, lookup, lookup-insert, insert,
  HasDistinctKeys, insert-HasDistinctKeys, All, ◌==◌, eq_iff, ◌⊎◌, inl, inr, if◌then◌else◌, Result,
  ok, err, arith, Bool-cases, Result-cases, ◌∙◌,
}
use mathlib.Core.Path.{subst}
use onyxia_backend.Onboarding.Domain.{Quota}
use onyxia_backend.Onboarding.Adapter.{
  Cluster, quota_entries, convert_entries, convert_quota_to_resource_map,
}

module _ (c : Cluster) where
  open c use {Quantity, parse_quantity}

  -- The limit that an entry asks for: none if its value is empty or does not parse.
  abbrev pub parsed : Result Quantity → Option Quantity
  parsed (ok q) = some q
  parsed (err e) = none

  abbrev pub limit_of : Option String → Option Quantity
  limit_of none = none
  limit_of (some value) = if value == "" then none else parsed (parse_quantity value)

  abbrev pub IsReadable : String × String → Type 0
  IsReadable (key, value) = (value ≡ "") ⊎ ((q : Quantity) × (parse_quantity value ≡ ok q))

  abbrev or_else : Option Quantity → Option Quantity → Option Quantity
  or_else (some q) o = some q
  or_else none o = o

  or_else-none : (o : Option Quantity) → or_else o none ≡ o
  or_else-none none = refl
  or_else-none (some q) = refl

  convert_entries-lookup :
      (es : Dict String) (acc m : Dict Quantity) (k : String)
      → HasDistinctKeys es
      → convert_entries c es acc ≡ ok m
      → lookup k m ≡ or_else (limit_of (lookup k es)) (lookup k acc)
  unfolding convert_entries lookup
  convert_entries-lookup [] acc m k d h = ground arith
  convert_entries-lookup ((key, value) ∷ es) acc m k d h = elim (Bool-cases (value == "")) [
    | inl e ↦ ground (arith, convert_entries-lookup es acc m k d.1 (ground arith), eq_iff key k)
    | inr e ↦ elim (Result-cases (parse_quantity value)) [
      | inl (q, p) ↦ ground (
        arith,
        convert_entries-lookup es (insert key q acc) m k d.1 (ground arith),
        lookup-insert key k q acc,
        eq_iff key k,
      )
      | inr (x, p) ↦ absurd (ground arith)
    ]
  ]

  -- From an empty map of limits, whatever the order of the entries: a key has a limit exactly when
  -- its entry is not empty, and that limit is its value, parsed.
  pub lookup-convert_entries :
      (es : Dict String) (m : Dict Quantity) (k : String)
      → HasDistinctKeys es
      → convert_entries c es [] ≡ ok m
      → lookup k m ≡ limit_of (lookup k es)
  lookup-convert_entries es m k d h =
      convert_entries-lookup es [] m k d h
      ∙ (unfold lookup in or_else-none (limit_of (lookup k es)))

  entry-IsReadable :
      (es : Dict String) (acc m : Dict Quantity)
      → convert_entries c es acc ≡ ok m
      → All IsReadable es
  unfolding convert_entries
  entry-IsReadable [] acc m h = tt
  entry-IsReadable ((key, value) ∷ es) acc m h = elim (Bool-cases (value == "")) [
    | inl e ↦ (inl ((eq_iff value "").0 e), entry-IsReadable es acc m (ground arith))
    | inr e ↦ elim (Result-cases (parse_quantity value)) [
      | inl (q, p) ↦ (inr (q, p), entry-IsReadable es (insert key q acc) m (ground arith))
      | inr (x, p) ↦ absurd (ground arith)
    ]
  ]

  convert_of :
      (es : Dict String) (acc : Dict Quantity)
      → All IsReadable es
      → (m : Dict Quantity) × (convert_entries c es acc ≡ ok m)
  unfolding convert_entries
  convert_of [] acc h = (acc, refl)
  convert_of ((key, value) ∷ es) acc h = elim (Bool-cases (value == "")) [
    | inl e ↦ let (m, p) = convert_of es acc h.1 in (m, ground arith)
    | inr e ↦ elim h.0 [
      | inl empty ↦ absurd (ground (arith, eq_iff value ""))
      | inr (q, p) ↦ let (m, r) = convert_of es (insert key q acc) h.1 in (m, ground arith)
    ]
  ]

  -- The conversion succeeds exactly when every value that is not empty parses.
  pub convert_entries_iff :
      (es : Dict String)
      → ((m : Dict Quantity) × (convert_entries c es [] ≡ ok m)) ↔ All IsReadable es
  convert_entries_iff es = (λ (m, h). entry-IsReadable es [] m h, convert_of es [])

  pub convert_entries-HasDistinctKeys :
      (es : Dict String) (acc m : Dict Quantity)
      → HasDistinctKeys acc
      → convert_entries c es acc ≡ ok m
      → HasDistinctKeys m
  unfolding convert_entries
  convert_entries-HasDistinctKeys [] acc m d h =
      let e : acc ≡ m = ground arith in subst (λ x. HasDistinctKeys x) e d
  convert_entries-HasDistinctKeys ((key, value) ∷ es) acc m d h = elim (Bool-cases (value == "")) [
    | inl e ↦ convert_entries-HasDistinctKeys es acc m d (ground arith)
    | inr e ↦ elim (Result-cases (parse_quantity value)) [
      | inl (q, p) ↦
          convert_entries-HasDistinctKeys es (insert key q acc) m
            (insert-HasDistinctKeys key q acc d) (ground arith)
      | inr (x, p) ↦ absurd (ground arith)
    ]
  ]

  quota_entries-HasDistinctKeys : (quota : Quota) → HasDistinctKeys (quota_entries quota)
  unfolding quota_entries lookup
  quota_entries-HasDistinctKeys quota = assumption (refl, tt)

  module _ (quota : Quota) (m : Dict Quantity) where
    pub converted_keys : convert_quota_to_resource_map c quota ≡ ok m → HasDistinctKeys m
    unfolding convert_quota_to_resource_map
    converted_keys h = convert_entries-HasDistinctKeys (quota_entries quota) [] m tt h

    pub converted_limits :
        (k : String)
        → convert_quota_to_resource_map c quota ≡ ok m
        → lookup k m ≡ limit_of (lookup k (quota_entries quota))
    unfolding convert_quota_to_resource_map
    converted_limits k h =
        lookup-convert_entries (quota_entries quota) m k (quota_entries-HasDistinctKeys quota) h
