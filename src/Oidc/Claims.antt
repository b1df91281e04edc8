-- ===== src/Oidc/Claims.antt =====
-- The functions of internal/auth/oidc/oidc.go on the claims of a token.
pub mod Audience
use onyxia_backend.Common.{
  ℕ, String, ◌≡◌, refl, Bool, true, false, Option, none, some, List, [], ◌∷◌, Dict, lookup,
  contains, ◌==◌, not, ◌&&◌, if◌then◌else◌, Error, errorf, Result, ok, err, guard,
}
use onyxia_backend.Common.Any.{
  Any, null, boolean, number, str, strs, arr, obj, items, fields, all_strings,
}

abbrev pub Claims : Type 0
Claims = Dict Any

pub invalid_audience : String → Error
invalid_audience audience = errorf "invalid audience: expected %q, got %v" (audience ∷ [])

-- The `switch` of `validateAudience`
pub audience_matches : String → Any → Result (Unit {0})
unfolding invalid_audience
audience_matches audience (str s) = guard (s == audience) (invalid_audience audience)
audience_matches audience (strs ss) = guard (contains ss audience) (invalid_audience audience)
audience_matches audience (arr vs) = elim (all_strings (items vs)) [
  | none ↦ err (errorf "audience element is not a string: %v" [])
  | some ss ↦ guard (contains ss audience) (invalid_audience audience)
]
audience_matches audience _ = err (errorf "invalid audience format" [])

-- `validateAudience`
unfoldable pub validate_audience : String → Claims → Result (Unit {0})
unfolding audience_matches lookup all_strings
validate_audience audience claims = if audience == "" then ok tt else elim (lookup "aud" claims) [
  | none ↦ err (errorf "missing audience claim" [])
  | some aud ↦ audience_matches audience aud
]

-- `extractClaim`
unfoldable pub extract_claim : Claims → String → Result String
unfolding lookup
extract_claim claims name = elim (lookup name claims) [
  | none ↦ err (errorf "missing %q claim" (name ∷ []))
  | some (str s) ↦ ok s
  | some _ ↦ err (errorf "unknown format for claim %q" (name ∷ []))
]

-- `extractStringArray`; a nil result is the empty list, which its users do not tell from it.
unfoldable pub extract_string_array : Claims → String → List String
unfolding lookup all_strings
extract_string_array claims name = if name == "" then [] else elim (lookup name claims) [
  | some (arr vs) ↦ elim (all_strings (items vs)) [ none ↦ [] | some ss ↦ ss ]
  | _ ↦ []
]

-- `extractCnfJKT`, with the empty text for its failures, which its caller does not tell apart
unfoldable pub extract_cnf_jkt : Claims → String
unfolding lookup
extract_cnf_jkt claims = elim (lookup "cnf" claims) [
  | some (obj cnf) ↦ elim (lookup "jkt" (fields cnf)) [ some (str jkt) ↦ jkt | _ ↦ "" ]
  | _ ↦ ""
]

-- The loop of `verifyToken` that leaves out the three claims of the user
unfoldable pub without_claims : (username groups roles : String) → Claims → Claims
without_claims username groups roles [] = []
without_claims username groups roles ((k, v) ∷ claims) =
    let rest = without_claims username groups roles claims in
    if not (k == username) && not (k == groups) && not (k == roles) then (k, v) ∷ rest else rest
