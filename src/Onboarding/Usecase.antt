-- ===== src/Onboarding/Usecase.antt =====
-- onboarding/usecase: the steps of an onboarding. The use case is a value that lives as long as the
-- server: the map of static annotations in its configuration is shared by all requests and written
-- by them, so each step returns the use case too.
pub mod Names
pub mod Choice
pub mod Annotations
pub mod Steps
use onyxia_backend.Common.{
  String, Bool, true, false, Option, none, some, List, [], ◌∷◌, Dict, lookup, insert, if◌then◌else◌,
  not, Result, ok, err, wrapf,
}
use onyxia_backend.Common.Text.{◌++◌}
use onyxia_backend.Common.Any.{Any, null, str}
use onyxia_backend.UserContext.{Context, get_attributes}
use onyxia_backend.Onboarding.Domain
use onyxia_backend.Onboarding.Domain.{
  Quota, Namespace, OnboardingRequest, NamespaceCreationResult, QuotaApplicationResult,
}
use onyxia_backend.Onboarding.Adapter
use onyxia_backend.Onboarding.Adapter.{Cluster}

-- `port.NamespaceService`, with the state of what it acts on
pub record NamespaceService : Type 1 where
  pub State : Type 0
  pub create_namespace :
      (name : String)
      → (annotations labels : Option (Dict String)) → State
      → Result NamespaceCreationResult × State
  pub apply_resource_quotas :
      (namespace : String) → Quota → State → Result QuotaApplicationResult × State

-- `KubernetesNamespaceService` implements it.
abbrev pub kubernetes_namespace_service : Cluster → NamespaceService
kubernetes_namespace_service c = record {
  State = c.State;
  create_namespace = Adapter.create_namespace c;
  apply_resource_quotas = Adapter.apply_resource_quotas c;
}

-- `onboardingUsecase`, but for the service
pub record OnboardingUsecase : Type 0 where
  pub namespace : Namespace
  pub quotas : Domain.Quotas

-- `getNamespace`
unfoldable pub get_namespace : OnboardingUsecase → OnboardingRequest → String
get_namespace s req = elim req.group [
  | some group ↦ s.namespace.group_namespace_prefix ++ group
  | none ↦ s.namespace.namespace_prefix ++ req.user_name
]

-- `getGroupQuota`
unfoldable pub get_group_quota : Domain.Quotas → Quota
get_group_quota quotas = if quotas.group_enabled then quotas.group else quotas.default

-- `getUserQuota`, as a loop over the roles of the user
unfoldable pub get_user_quota : Domain.Quotas → List String → Quota
unfolding lookup
get_user_quota quotas [] = if quotas.user_enabled then quotas.user else quotas.default
get_user_quota quotas (role ∷ roles) = elim (lookup role quotas.roles) [
  | some quota ↦ quota
  | none ↦ get_user_quota quotas roles
]

-- `getQuota`
unfoldable pub get_quota : Domain.Quotas → OnboardingRequest → Quota
unfolding get_group_quota get_user_quota
get_quota quotas req = elim req.group [
  | some group ↦ get_group_quota quotas
  | none ↦ get_user_quota quotas req.user_roles
]

-- What the surroundings of a request give: `fmt.Sprint` of a value that is no text, and the text of
-- the current time in milliseconds.
pub record Surroundings : Type 0 where
  pub sprint_other : Any → String
  pub unix_milli : String

abbrev pub last_login_timestamp_key : String
last_login_timestamp_key = "onyxia_last_login_timestamp"

-- `fmt.Sprint` of what a map holds for a key; a missing one gives the nil value.
unfoldable pub sprint : Surroundings → Option Any → String
sprint w none = "<nil>"
sprint w (some null) = "<nil>"
sprint w (some (str s)) = s
sprint w (some v) = w.sprint_other v

-- The loop over the attributes that are to be annotated
unfoldable pub annotate : Surroundings → Dict Any → List String → Dict String → Dict String
unfolding sprint
annotate w attributes [] annotations = annotations
annotate w attributes (attr ∷ attrs) annotations =
    annotate w attributes attrs (insert attr (sprint w (lookup attr attributes)) annotations)

-- The writes of `getNamespaceAnnotations` to a map
unfoldable pub written : Surroundings → Context → Domain.Dynamic → Dict String → Dict String
unfolding annotate get_attributes
written w ctx dynamic annotations =
    let stamped =
      if dynamic.last_login_timestamp
      then insert last_login_timestamp_key w.unix_milli annotations
      else annotations in
    elim (get_attributes ctx) [
      | none ↦ stamped
      | some attributes ↦ annotate w attributes dynamic.user_attributes stamped
    ]

abbrev pub with_static : OnboardingUsecase → Dict String → OnboardingUsecase
with_static s m = record s {
  namespace = record s.namespace { annotation = record s.namespace.annotation { static = some m } };
}

-- `getNamespaceAnnotations`. The map that it writes to is the static one, if there is one.
unfoldable pub get_namespace_annotations :
    Surroundings → Context → OnboardingUsecase → Option (Dict String) × OnboardingUsecase
unfolding written
get_namespace_annotations w ctx s =
    let annotation = s.namespace.annotation in
    if not annotation.enabled then (none, s) else elim annotation.static [
      | none ↦ (some (written w ctx annotation.dynamic []), s)
      | some m ↦ let m' = written w ctx annotation.dynamic m in (some m', with_static s m')
    ]

module _ (service : NamespaceService) where
  open service use {State}

  forget {ℓ} : {A : Type ℓ} → Result A → Result (Unit {0})
  forget (ok a) = ok tt
  forget (err e) = err e

  -- `createNamespace`
  unfoldable pub create_namespace :
      Surroundings
      → Context
      → String
      → OnboardingUsecase
      → State
      → Result (Unit {0}) × OnboardingUsecase × State
  unfolding forget
  create_namespace w ctx name s k =
      let (annotations, s') = get_namespace_annotations w ctx s in
      let (result, k') = service.create_namespace name annotations s.namespace.namespace_labels k in
      (forget result, s', k')

  applied : String → Result QuotaApplicationResult × State → Result (Unit {0}) × State
  applied namespace (ok result, k) = (ok tt, k)
  applied namespace (err e, k) =
      (err (wrapf "failed to apply quotas to namespace (%s): %w" (namespace ∷ []) e), k)

  -- `applyQuotas`
  unfoldable pub apply_quotas :
      String → OnboardingRequest → Domain.Quotas → State → Result (Unit {0}) × State
  unfolding applied
  apply_quotas namespace req quotas k =
      if not quotas.enabled
      then (ok tt, k)
      else applied namespace (service.apply_resource_quotas namespace (get_quota quotas req) k)

  then_quotas :
      String
      → OnboardingRequest
      → Result (Unit {0}) × OnboardingUsecase × State
      → Result (Unit {0}) × OnboardingUsecase × State
  unfolding apply_quotas
  then_quotas namespace req (err e, s, k) = (err e, s, k)
  then_quotas namespace req (ok u, s, k) =
      let (result, k') = apply_quotas namespace req s.quotas k in (result, s, k')

  -- `Onboard`
  unfoldable pub onboard :
      Surroundings
      → Context
      → OnboardingRequest
      → OnboardingUsecase
      → State
      → Result (Unit {0}) × OnboardingUsecase × State
  unfolding then_quotas create_namespace
  onboard w ctx req s k =
      let namespace = get_namespace s req in
      then_quotas namespace req (create_namespace w ctx namespace s k)
