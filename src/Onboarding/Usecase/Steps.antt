-- ===== src/Onboarding/Usecase/Steps.antt =====
-- What a successful onboarding has done, and what a failed one has not.
use onyxia_backend.Common.{
  String, ◌≡◌, ◌⊎◌, inl, inr, refl, true, false, [], ◌∷◌, Error, Result, ok, err, wrapf, arith, ap,
  Result-cases,
}
use onyxia_backend.UserContext.{Context}
use onyxia_backend.Onboarding.Domain.{
  OnboardingRequest, NamespaceCreationResult, QuotaApplicationResult, quota_unchanged,
  quota_ignored,
}
use onyxia_backend.Onboarding.Adapter
use onyxia_backend.Onboarding.Adapter.{Cluster}
use onyxia_backend.Onboarding.Adapter.Calls.{ReadsBack}
use onyxia_backend.Onboarding.Adapter.Converge.{settled, apply_twice}
use onyxia_backend.Onboarding.Usecase.{
  NamespaceService, kubernetes_namespace_service, OnboardingUsecase, Surroundings, get_namespace,
  get_quota, get_namespace_annotations, forget, then_quotas, onboard,
}

-- The part of a use case that no request changes
pub get_namespace_annotations-quotas :
    (w : Surroundings) (ctx : Context) (s : OnboardingUsecase)
    → (get_namespace_annotations w ctx s).1.quotas ≡ s.quotas
unfolding get_namespace_annotations
get_namespace_annotations-quotas w ctx s = ground arith

module _ (service : NamespaceService) (w : Surroundings) (ctx : Context) where
  open service use {State}

  module _ (req : OnboardingRequest) (s : OnboardingUsecase) (k : State) where
    -- The namespace of the request, its annotations, and what its creation gives
    abbrev pub name : String
    name = get_namespace s req

    abbrev pub creation : Result NamespaceCreationResult × State
    creation =
        service.create_namespace name (get_namespace_annotations w ctx s).0
          s.namespace.namespace_labels k

    abbrev pub application : Result QuotaApplicationResult × State
    application = service.apply_resource_quotas name (get_quota s.quotas req) creation.1

    abbrev pub outcome : Result (Unit {0}) × OnboardingUsecase × State
    outcome = onboard service w ctx req s k

    same_quotas : (get_namespace_annotations w ctx s).1.quotas ≡ s.quotas
    same_quotas = get_namespace_annotations-quotas w ctx s

    -- An onboarding creates the namespace of the request before anything else. If that fails, it
    -- returns that error and applies no quota; if it succeeds and quotas are enabled, the quota of
    -- the request is applied to that namespace, and the onboarding succeeds exactly if this does.
    pub onboard_steps :
        ((e : Error) → creation.0 ≡ err e → (outcome.0 ≡ err e) × (outcome.2 ≡ creation.1))
        × ((r : NamespaceCreationResult)
            → creation.0 ≡ ok r
            → (s.quotas.enabled ≡ false → (outcome.0 ≡ ok tt) × (outcome.2 ≡ creation.1))
              × (s.quotas.enabled ≡ true
                  → (outcome.2 ≡ application.1)
                    × ((q : QuotaApplicationResult) → application.0 ≡ ok q → outcome.0 ≡ ok tt)
                    × ((e : Error)
                        → application.0 ≡ err e
                        → outcome.0
                          ≡ err (
                              wrapf "failed to apply quotas to namespace (%s): %w" (name ∷ []) e))))
    unfolding onboard forget then_quotas
    onboard_steps = (
      λ e h. (ground arith, ground arith),
      λ r h. (
        λ off. (ground (arith, same_quotas), ground (arith, same_quotas)),
        λ on. (
          ground (arith, same_quotas),
          λ q p. ground (arith, same_quotas),
          λ e p. ground (arith, same_quotas),
        ),
      ),
    )

settled_cases :
    (r : QuotaApplicationResult) → (settled r ≡ quota_unchanged) ⊎ (settled r ≡ quota_ignored)
settled_cases quota_ignored = inr refl
settled_cases _ = inl refl

module _ (c : Cluster) (laws : ReadsBack c) (w : Surroundings) (ctx : Context)
    (req : OnboardingRequest) (s : OnboardingUsecase) (k : c.State) where
  abbrev service : NamespaceService
  service = kubernetes_namespace_service c

  applied_settles :
      (r : QuotaApplicationResult)
      → (application service w ctx req s k).0 ≡ ok r
      → Adapter.apply_resource_quotas c
          (get_namespace s req)
          (get_quota s.quotas req)
          (application service w ctx req s k).1
        ≡ (ok (settled r), (application service w ctx req s k).1)
  applied_settles r e =
      apply_twice c laws (get_namespace s req) (get_quota s.quotas req)
        (creation service w ctx req s k).1 (application service w ctx req s k).1 r
        (ap (λ x. (x, (application service w ctx req s k).1)) e)

  -- On a Kubernetes cluster that reads back what was written, after a successful onboarding with
  -- quotas enabled the quota of the request is in place in the namespace of the request: applying it
  -- once more writes nothing, and finds it unchanged, or finds a quota that is to be ignored.
  pub onboard_in_place :
      s.quotas.enabled ≡ true
      → (onboard service w ctx req s k).0 ≡ ok tt
      → (r : QuotaApplicationResult) × (Adapter.apply_resource_quotas c
            (get_namespace s req)
            (get_quota s.quotas req)
            (onboard service w ctx req s k).2
          ≡ (ok r, (onboard service w ctx req s k).2))
        × ((r ≡ quota_unchanged) ⊎ (r ≡ quota_ignored))
  onboard_in_place on h =
      let steps = onboard_steps service w ctx req s k in
      elim (Result-cases (creation service w ctx req s k).0) [
        | inr (e, failed) ↦ absurd (cc (h, (steps.0 e failed).0))
        | inl (made, created) ↦
            let after = (steps.1 made created).1 on in
            elim (Result-cases (application service w ctx req s k).0) [
              | inr (e, failed) ↦ absurd (cc (h, after.2 e failed))
              | inl (r, done) ↦ (settled r, rw (after.0) (applied_settles r done), settled_cases r)
            ]
      ]
