-- ===== src/Oidc/Claims/Audience.antt =====
-- Which tokens are meant for the audience that is configured, and what is left of the claims.
use onyxia_backend.Common.{
  String, ◌≡◌, ◌⊎◌, ◌↔◌, true, none, some, List, [], ◌∷◌, lookup, ◌==◌, eq_iff, not, ◌&&◌, ◌||◌, ok,
  arith, inl, inr, if◌then◌else◌, contains, Option-cases, Bool-cases,
}
use onyxia_backend.Common.Any.{Any, null, boolean, number, str, strs, arr, obj, items, all_strings}
use onyxia_backend.Oidc.Claims.{
  Claims, validate_audience, audience_matches, extract_claim, without_claims,
}

abbrev In : String → List String → Type 0
In s [] = ⊥
In s (x ∷ xs) = (x ≡ s) ⊎ In s xs

-- The `aud` claim names the audience: alone, or in a list that holds nothing but texts.
abbrev pub NamesAudience : String → Any → Type 0
NamesAudience audience (str s) = s ≡ audience
NamesAudience audience (strs ss) = In audience ss
NamesAudience audience (arr vs) =
    (ss : List String) × (all_strings (items vs) ≡ some ss) × In audience ss
NamesAudience audience _ = ⊥

contains-In : (ss : List String) (s : String) → contains ss s ≡ true → In s ss
contains-In [] s h = cc
contains-In (x ∷ xs) s h = elim (Bool-cases (x == s)) [
  | inl e ↦ inl ((eq_iff x s).0 e)
  | inr e ↦ inr (contains-In xs s (ground arith))
]

In-contains : (ss : List String) (s : String) → In s ss → contains ss s ≡ true
In-contains [] s h = absurd h
In-contains (x ∷ xs) s (inl e) = ground (arith, eq_iff x s)
In-contains (x ∷ xs) s (inr h) = ground (arith, In-contains xs s h)

audience_matches_iff :
    (audience : String) (v : Any) → (audience_matches audience v ≡ ok tt) ↔ NamesAudience audience v
unfolding audience_matches
audience_matches_iff audience (str s) =
    (λ h. ground (arith, eq_iff s audience), λ e. ground (arith, eq_iff s audience))
audience_matches_iff audience (strs ss) =
    (λ h. contains-In ss audience (ground arith), λ h. ground (arith, In-contains ss audience h))
audience_matches_iff audience (arr vs) = (
  λ h. elim (Option-cases (all_strings (items vs))) [
    | inl e ↦ absurd (ground arith)
    | inr (ss, e) ↦ (ss, e, contains-In ss audience (ground arith))
  ],
  λ (ss, e, h). ground (arith, In-contains ss audience h),
)
audience_matches_iff audience null = (λ h. cc, λ h. absurd h)
audience_matches_iff audience (boolean b) = (λ h. cc, λ h. absurd h)
audience_matches_iff audience (number n) = (λ h. cc, λ h. absurd h)
audience_matches_iff audience (obj fs) = (λ h. cc, λ h. absurd h)

abbrev pub IsForAudience : String → Claims → Type 0
IsForAudience audience claims =
    (audience ≡ "") ⊎ ((aud : Any) × (lookup "aud" claims ≡ some aud) × NamesAudience audience aud)

pub validate_audience_iff :
    (audience : String) (claims : Claims)
    → (validate_audience audience claims ≡ ok tt) ↔ IsForAudience audience claims
unfolding validate_audience
validate_audience_iff audience claims = (
  λ h. elim (Bool-cases (audience == "")) [
    | inl e ↦ inl ((eq_iff audience "").0 e)
    | inr e ↦ elim (Option-cases (lookup "aud" claims)) [
      | inl missing ↦ absurd (ground arith)
      | inr (aud, found) ↦ inr (aud, found, (audience_matches_iff audience aud).0 (ground arith))
    ]
  ],
  elim [
    | inl e ↦ ground (arith, eq_iff audience "")
    | inr (aud, found, names) ↦
        ground (arith, (audience_matches_iff audience aud).1 names, eq_iff audience "")
  ],
)

module _ (u g r : String) where
  without_claims-cons :
      (k i : String) (x : Any) (claims : Claims)
      → lookup k (without_claims u g r ((i, x) ∷ claims)) ≡ (
          if i == k && not (k == u || k == g || k == r)
          then some x
          else lookup k (without_claims u g r claims))
  unfolding without_claims lookup
  without_claims-cons k i x claims = elim (Bool-cases (i == k)) [
    | inl e ↦ rw ((eq_iff i k).0 e) (ground (arith, eq_iff k k))
    | inr e ↦ ground arith
  ]

  -- The attributes of a user are the claims of the token: at every name they hold what the claims
  -- hold, except at the three names of the claims for the username, the groups and the roles,
  -- where they hold nothing.
  pub lookup-without_claims :
      (k : String) (claims : Claims)
      → lookup k (without_claims u g r claims)
        ≡ (if k == u || k == g || k == r then none else lookup k claims)
  unfolding lookup
  lookup-without_claims k [] = unfold without_claims in ground arith
  lookup-without_claims k ((i, x) ∷ claims) =
      rw (without_claims-cons k i x claims) (ground (arith, lookup-without_claims k claims))

-- The claim that names the user is there and is a text.
module _ (claims : Claims) (name : String) where
  pub extract_claim_iff :
      (s : String) → (extract_claim claims name ≡ ok s) ↔ (lookup name claims ≡ some (str s))
  unfolding extract_claim
  extract_claim_iff s = (λ h. ground arith, λ h. ground arith)
