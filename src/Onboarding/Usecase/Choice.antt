-- ===== src/Onboarding/Usecase/Choice.antt =====
-- Which quota an onboarding applies.
use onyxia_backend.Common.{
  String, ◌≡◌, refl, true, false, none, some, List, [], ◌∷◌, ◌++◌, Dict, lookup, All, ◌⊎◌,
  if◌then◌else◌, arith, ap, Option-cases, Bool-cases, inl, inr,
}
use mathlib.Core.Path.{subst}
use onyxia_backend.Onboarding.Domain.{Quota, Quotas, OnboardingRequest}
use onyxia_backend.Onboarding.Usecase.{get_quota, get_user_quota}

-- A role that has a quota, behind roles that have none.
pub record FirstRole (roles : Dict Quota) (user_roles : List String) (q : Quota) : Type 0 where
  pub before : List String
  pub role : String
  pub after : List String
  pub split : user_roles ≡ before ++ role ∷ after
  pub none_before : All (λ r. lookup r roles ≡ none) before
  pub found : lookup role roles ≡ some q

-- The quota for a request: that of the group or of the first of the user's roles that has one, or
-- else that of users or groups in general, if it is enabled, or the default.
pub data IsChosen (quotas : Quotas) (req : OnboardingRequest) (q : Quota) : Type 0 where
  by_group :
      (g : String)
      → req.group ≡ some g
      → quotas.group_enabled ≡ true
      → q ≡ quotas.group
      → IsChosen quotas req q
  by_group_default :
      (g : String)
      → req.group ≡ some g
      → quotas.group_enabled ≡ false
      → q ≡ quotas.default
      → IsChosen quotas req q
  by_role : req.group ≡ none → FirstRole quotas.roles req.user_roles q → IsChosen quotas req q
  by_user :
      req.group ≡ none
      → All (λ r. lookup r quotas.roles ≡ none) req.user_roles
      → quotas.user_enabled ≡ true
      → q ≡ quotas.user
      → IsChosen quotas req q
  by_default :
      req.group ≡ none
      → All (λ r. lookup r quotas.roles ≡ none) req.user_roles
      → quotas.user_enabled ≡ false
      → q ≡ quotas.default
      → IsChosen quotas req q

abbrev fallback : Quotas → Quota
fallback quotas = if quotas.user_enabled then quotas.user else quotas.default

abbrev HasNone : Quotas → List String → Type 0
HasNone quotas roles = All (λ r. lookup r quotas.roles ≡ none) roles

first_later :
    (roles : Dict Quota) (role : String) (rest : List String) (q : Quota)
    → lookup role roles ≡ none
    → FirstRole roles rest q
    → FirstRole roles (role ∷ rest) q
first_later roles role rest q e f = record {
  before = role ∷ f.before;
  role = f.role;
  after = f.after;
  split = ap (λ r. role ∷ r) f.split;
  none_before = (e, f.none_before);
  found = f.found;
}

user_quota_lem :
    (quotas : Quotas) (roles : List String)
    → FirstRole quotas.roles roles (get_user_quota quotas roles)
      ⊎ (HasNone quotas roles × (get_user_quota quotas roles ≡ fallback quotas))
unfolding get_user_quota
user_quota_lem quotas [] = inr (tt, refl)
user_quota_lem quotas (role ∷ roles) = elim (Option-cases (lookup role quotas.roles)) [
  | inr (q, e) ↦ inl (record {
    before = [];
    role = role;
    after = roles;
    split = refl;
    none_before = tt;
    found = ground arith;
  })
  | inl e ↦ elim (user_quota_lem quotas roles) [
    | inl f ↦ inl (
        rw (e, get_user_quota)
          (first_later quotas.roles role roles (get_user_quota quotas roles) e f))
    | inr (a, q) ↦ inr ((e, a), ground arith)
  ]
]

module _ (quotas : Quotas) (req : OnboardingRequest) (e : req.group ≡ none) where
  abbrev chosen : Quota
  chosen = get_user_quota quotas req.user_roles

  of_user :
      FirstRole quotas.roles req.user_roles chosen
        ⊎ (HasNone quotas req.user_roles × (chosen ≡ fallback quotas))
      → IsChosen quotas req chosen
  of_user (inl f) = by_role e f
  of_user (inr (a, q)) = elim (Bool-cases quotas.user_enabled) [
    | inl b ↦ by_user e a b (ground arith)
    | inr b ↦ by_default e a b (ground arith)
  ]

without_group :
    (quotas : Quotas) (req : OnboardingRequest)
    → req.group ≡ none
    → get_user_quota quotas req.user_roles ≡ get_quota quotas req
unfolding get_quota
without_group quotas req e = ground arith

-- A request for a group is given the quota of groups if that is enabled, and the default one
-- otherwise. A request for a user is given the quota of the first of the user's roles that has
-- one; without such a role, the quota of users if that is enabled, and the default one otherwise.
pub get_quota-IsChosen :
    (quotas : Quotas) (req : OnboardingRequest) → IsChosen quotas req (get_quota quotas req)
unfolding get_quota
get_quota-IsChosen quotas req = elim (Option-cases req.group) [
  | inr (g, e) ↦ elim (Bool-cases quotas.group_enabled) [
    | inl b ↦ by_group g e b (ground arith)
    | inr b ↦ by_group_default g e b (ground arith)
  ]
  | inl e ↦
      subst (IsChosen quotas req) (without_group quotas req e)
        (of_user quotas req e (user_quota_lem quotas req.user_roles))
]
