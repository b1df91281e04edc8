-- ===== src/Onboarding/Controller.antt =====
-- onboarding/api/controller/onboarding.go, and onboarding/api/route/handler.go, which only calls it
use onyxia_backend.Common.{
  String, ◌≡◌, ◌≢◌, ◌↔◌, ◌⊎◌, inl, inr, refl, Bool, true, Option, none, some, List, [], ◌∷◌,
  contains, not, Error, errorf, Result, ok, err, if◌then◌else◌, arith, Bool-cases, Result-cases,
}
use onyxia_backend.UserContext.{Context, User, get_user}
use onyxia_backend.Onboarding.Domain.{OnboardingRequest}

-- `api.OnboardRes`
pub data OnboardRes : Type 0 where
  onboard_ok onboard_forbidden onboard_unauthorized : OnboardRes

-- `domain.OnboardingUsecase`: an action on a state
module _ {S : Type 0} (usecase : Context → OnboardingRequest → S → Result (Unit {0}) × S) where
  answer : Result (Unit {0}) × S → (OnboardRes × Option Error) × S
  answer (ok u, s) = ((onboard_ok, none), s)
  answer (err e, s) = ((onboard_forbidden, some e), s)

  abbrev pub request_of : User → Option String → OnboardingRequest
  request_of u group = record { group = group; user_name = u.username; user_roles = u.roles }

  -- The group may be asked for by its members only.
  may_use : List String → Option String → Bool
  may_use groups none = true
  may_use groups (some group) = contains groups group

  abbrev no_access : Option String → Error
  no_access none = errorf "user does not have access to group: %s" []
  no_access (some group) = errorf "user does not have access to group: %s" (group ∷ [])

  on_behalf : Context → Option String → Option User → S → (OnboardRes × Option Error) × S
  unfolding answer may_use
  on_behalf ctx group none s =
      ((onboard_forbidden, some (errorf "user not found in context" [])), s)
  on_behalf ctx group (some u) s =
      let result = usecase ctx (request_of u group) s in
      if not (may_use u.groups group)
      then ((onboard_unauthorized, some (no_access group)), s)
      else answer result

  -- `Onboard`; the group of the request is there if it was set.
  unfoldable pub onboard : Context → (group : Option String) → S → (OnboardRes × Option Error) × S
  unfolding on_behalf get_user
  onboard ctx group s = on_behalf ctx group (get_user ctx) s

  -- The request comes from a user who may ask for what it asks for.
  pub record IsAllowed (ctx : Context) (group : Option String) (u : User) : Type 0 where
    pub known : get_user ctx ≡ some u
    pub member : (g : String) → group ≡ some g → contains u.groups g ≡ true

  member_of :
      (u : User) (group : Option String)
      → may_use u.groups group ≡ true
      → (g : String) → group ≡ some g
      → contains u.groups g ≡ true
  unfolding may_use
  member_of u group h g e = ground arith

  may_use_of :
      (u : User) (group : Option String)
      → ((g : String) → group ≡ some g → contains u.groups g ≡ true)
      → may_use u.groups group ≡ true
  unfolding may_use
  may_use_of u none h = refl
  may_use_of u (some g) h = h g refl

  module _ (ctx : Context) (group : Option String) (s : S) where
    allowed_lem :
        (o : Option User)
        → get_user ctx ≡ o
        → (on_behalf ctx group o s).0.0 ≡ onboard_ok
        → (u : User) × IsAllowed ctx group u × ((usecase ctx (request_of u group) s).0 ≡ ok tt)
    unfolding on_behalf
    allowed_lem none e h = cc
    allowed_lem (some u) e h =
        (u, record { known = e; member = member_of u group (ground arith) }, ground arith)

    -- An onboarding is answered with success exactly when it comes from a user of the context, who
    -- is a member of the group that it asks for, if it asks for one, and the use case succeeds for
    -- that user's name, roles and the group.
    pub onboard_iff :
        ((onboard ctx group s).0.0 ≡ onboard_ok)
        ↔ ((u : User) × IsAllowed ctx group u × ((usecase ctx (request_of u group) s).0 ≡ ok tt))
    unfolding onboard
    onboard_iff = (
      λ h. allowed_lem (get_user ctx) refl h,
      λ (u, a, done). ground (arith, a.known, may_use_of u group a.member),
    )

    denied_lem :
        (o : Option User)
        → get_user ctx ≡ o
        → ((u : User) → ¬ (IsAllowed ctx group u))
        → ((on_behalf ctx group o s).0.0 ≢ onboard_ok) × ((on_behalf ctx group o s).1 ≡ s)
    unfolding on_behalf
    denied_lem none e h = (λ p. cc, refl)
    denied_lem (some u) e h = elim (Bool-cases (may_use u.groups group)) [
      | inl b ↦ absurd (h u (record { known = e; member = member_of u group b }))
      | inr b ↦ (λ p. ground arith, ground arith)
    ]

    -- If the context has no user who may ask for the group, the use case is not called: the answer
    -- is no success and nothing changes.
    pub onboard_denied :
        ((u : User) → ¬ (IsAllowed ctx group u))
        → ((onboard ctx group s).0.0 ≢ onboard_ok) × ((onboard ctx group s).1 ≡ s)
    unfolding onboard
    onboard_denied h = denied_lem (get_user ctx) refl h

    answered_lem :
        (o : Option User)
        → get_user ctx ≡ o
        → (on_behalf ctx group o s).0.1 ≡ none
        → (u : User) × IsAllowed ctx group u
          × (on_behalf ctx group o s ≡ ((onboard_ok, none), (usecase ctx (request_of u group) s).1))
          × ((usecase ctx (request_of u group) s).0 ≡ ok tt)
    unfolding on_behalf answer
    answered_lem none e h = ground arith
    answered_lem (some u) e h = elim (Bool-cases (may_use u.groups group)) [
      | inr b ↦ ground arith
      | inl b ↦ elim (Result-cases (usecase ctx (request_of u group) s).0) [
        | inl (d, p) ↦
            (u, record { known = e; member = member_of u group b }, ground arith, ground arith)
        | inr (x, p) ↦ ground arith
      ]
    ]

    -- Without an error the answer is a success, and the use case has succeeded for a user who may
    -- ask for the group.
    pub onboard-answered :
        (onboard ctx group s).0.1 ≡ none
        → (u : User) × IsAllowed ctx group u
          × (onboard ctx group s ≡ ((onboard_ok, none), (usecase ctx (request_of u group) s).1))
          × ((usecase ctx (request_of u group) s).0 ≡ ok tt)
    unfolding onboard
    onboard-answered h = answered_lem (get_user ctx) refl h

    unchanged_lem :
        (o : Option User)
        → get_user ctx ≡ o
        → ((on_behalf ctx group o s).1 ≡ s) ⊎ ((u : User) × IsAllowed ctx group u)
    unfolding on_behalf
    unchanged_lem none e = inl refl
    unchanged_lem (some u) e = elim (Bool-cases (may_use u.groups group)) [
      | inl b ↦ inr (u, record { known = e; member = member_of u group b })
      | inr b ↦ inl (ground arith)
    ]

    -- Nothing changes but for a user who may ask for the group.
    pub onboard-unchanged : ((onboard ctx group s).1 ≡ s) ⊎ ((u : User) × IsAllowed ctx group u)
    unfolding onboard
    onboard-unchanged = unchanged_lem (get_user ctx) refl

    -- A user who may ask for the group is answered with success if the use case succeeds.
    pub onboard-allowed :
        (u : User)
        → IsAllowed ctx group u
        → (usecase ctx (request_of u group) s).0 ≡ ok tt
        → (onboard ctx group s).0 ≡ (onboard_ok, none)
    unfolding onboard on_behalf answer
    onboard-allowed u a done = ground (arith, a.known, may_use_of u group a.member)
