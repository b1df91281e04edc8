-- ===== src/Onboarding/Usecase/Names.antt =====
-- Two users, or two groups, share no namespace.
use text.Mathlib.TextLemmas.{append_cancel_left}
use onyxia_backend.Common.{String, ◌≡◌, none, some, arith}
use onyxia_backend.Onboarding.Domain.{OnboardingRequest}
use onyxia_backend.Onboarding.Usecase.{OnboardingUsecase, get_namespace}

-- Two requests for users get one namespace only if they are for one user, and two requests for
-- groups only if they are for one group.
pub get_namespace-injective :
    (s : OnboardingUsecase) (r q : OnboardingRequest)
    → get_namespace s r ≡ get_namespace s q
    → (r.group ≡ none → q.group ≡ none → r.user_name ≡ q.user_name)
      × ((g h : String) → r.group ≡ some g → q.group ≡ some h → g ≡ h)
unfolding get_namespace
get_namespace-injective s r q same = (
  λ rn qn. append_cancel_left s.namespace.namespace_prefix r.user_name q.user_name (ground arith),
  λ g h rg qh. append_cancel_left s.namespace.group_namespace_prefix g h (ground arith),
)
