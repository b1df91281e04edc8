-- ===== src/Tests/Onboarding.antt =====
-- Onboardings at concrete inputs.
use onyxia_backend.Common.{
  ℕ, suc, String, ◌≡◌, ◌↔◌, ◌⊎◌, inl, refl, true, false, Option, none, some, [], ◌∷◌, Dict, Result,
  ok, lookup, insert,
}
use onyxia_backend.Common.Any.{str}
use onyxia_backend.UserContext.{Context, User, user, get_attributes}
use onyxia_backend.Onboarding.Domain.{
  Quota, Quotas, OnboardingRequest, QuotaApplicationResult, quota_created, quota_unchanged,
  quota_ignored,
}
use onyxia_backend.Onboarding.Adapter
use onyxia_backend.Onboarding.Adapter.{
  ResourceQuota, convert_entries, convert_quota_to_resource_map, quotas_are_different,
  quota_entries, quota_name, resource_quota, apply_resource_quotas,
}
use onyxia_backend.Onboarding.Adapter.Convert.{limit_of}
use onyxia_backend.Onboarding.Adapter.Converge.{apply_twice}
use onyxia_backend.Onboarding.Adapter.Effect.{apply_effect}
use onyxia_backend.Onboarding.Usecase.{
  OnboardingUsecase, Surroundings, kubernetes_namespace_service, get_namespace, get_quota,
  get_namespace_annotations, onboard,
}
use onyxia_backend.Onboarding.Usecase.Choice.{IsChosen, get_quota-IsChosen}
use onyxia_backend.Onboarding.Usecase.Annotations.{
  annotation_at, static_entries, lookup-get_namespace_annotations, OnlyStatic, static_after,
}
use onyxia_backend.Onboarding.Usecase.Steps.{onboard_in_place}
use onyxia_backend.Onboarding.Controller
use onyxia_backend.Onboarding.Controller.{
  OnboardRes, onboard_ok, IsAllowed, request_of, onboard_iff, onboard_denied,
}
use onyxia_backend.Tests.Fixtures.{cluster, cluster-ReadsBack}

abbrev no_quota : Quota
no_quota = record {
  memory_request = "";
  cpu_request = "";
  memory_limit = "";
  cpu_limit = "";
  storage_request = "";
  max_pods = "";
  ephemeral_storage_request = "";
  ephemeral_storage_limit = "";
  gpu_request = "";
  gpu_limit = "";
}

abbrev small : Quota
small = record no_quota { memory_request = "1Gi"; max_pods = "5" }

abbrev state : Option (ResourceQuota String)
state = (apply_resource_quotas cluster "user-a" small none).1

applied_small : apply_resource_quotas cluster "user-a" small none ≡ (ok quota_created, state)
unfolding apply_resource_quotas convert_quota_to_resource_map insert
applied_small = refl

apply_twice_example :
    apply_resource_quotas cluster "user-a" small state ≡ (ok quota_unchanged, state)
apply_twice_example =
    apply_twice cluster cluster-ReadsBack "user-a" small none state quota_created applied_small

apply_effect_example :
    (q : ResourceQuota String) × ((cluster.get_quota "user-a" quota_name state).0 ≡ ok q)
    × ((k : String) → lookup k q.hard ≡ limit_of cluster (lookup k (quota_entries small)))
apply_effect_example =
    apply_effect cluster cluster-ReadsBack "user-a" small none state quota_created applied_small
      (inl refl)

abbrev entries : Dict String
entries = ("count/pods", "5") ∷ ("limits.cpu", "") ∷ []

entries_convert : convert_entries cluster entries [] ≡ ok (("count/pods", "5") ∷ [])
unfolding convert_entries insert
entries_convert = refl

abbrev quotas : Quotas
quotas = record {
  enabled = true;
  default = no_quota;
  user_enabled = true;
  user = small;
  group_enabled = false;
  group = no_quota;
  roles = ("admin", no_quota) ∷ [];
}

abbrev request : OnboardingRequest
request = record { group = none; user_name = "a"; user_roles = "x" ∷ "admin" ∷ [] }

get_quota-IsChosen_example : IsChosen quotas request (get_quota quotas request)
get_quota-IsChosen_example = get_quota-IsChosen quotas request

abbrev pub usecase : OnboardingUsecase
usecase = record {
  namespace = record {
    namespace_prefix = "user-";
    group_namespace_prefix = "projet-";
    annotation = record {
      enabled = true;
      static = some (("created-by", "Onyxia") ∷ []);
      dynamic = record { last_login_timestamp = false; user_attributes = "mail" ∷ [] };
    };
    namespace_labels = none;
  };
  quotas = quotas;
}

abbrev pub surroundings : Surroundings
surroundings = record { sprint_other = λ v. "?"; unix_milli = "0" }

abbrev alice : User
alice = record {
  username = "a";
  groups = "g" ∷ [];
  roles = [];
  attributes = some (("mail", str "a@b") ∷ []);
}

abbrev ctx : Context
ctx = user (some alice) ∷ []

abbrev bob : Context
bob = user (some (record alice { attributes = some (("mail", str "b@b") ∷ []) })) ∷ []

lookup-get_namespace_annotations_example :
    (m : Dict String) × ((get_namespace_annotations surroundings ctx usecase).0 ≡ some m)
    × ((k : String)
        → lookup k m
          ≡ annotation_at surroundings
              (get_attributes ctx)
              usecase.namespace.annotation.dynamic
              k
              (lookup k (static_entries usecase)))
    × OnlyStatic usecase (get_namespace_annotations surroundings ctx usecase).1
    × ((get_namespace_annotations surroundings ctx usecase).1.namespace.annotation.static
        ≡ static_after usecase m)
lookup-get_namespace_annotations_example =
    lookup-get_namespace_annotations surroundings ctx usecase refl

onboarded :
    (onboard (kubernetes_namespace_service cluster) surroundings ctx request usecase none).0 ≡ ok tt
unfolding onboard apply_resource_quotas convert_quota_to_resource_map insert
    Adapter.create_namespace get_namespace_annotations get_quota
onboarded = refl

onboard_in_place_example :
    (r : QuotaApplicationResult) × (apply_resource_quotas cluster
        (get_namespace usecase request)
        (get_quota quotas request)
        (onboard (kubernetes_namespace_service cluster) surroundings ctx request usecase none).2
      ≡ (
        ok r,
        (onboard (kubernetes_namespace_service cluster) surroundings ctx request usecase none).2,
      ))
    × ((r ≡ quota_unchanged) ⊎ (r ≡ quota_ignored))
onboard_in_place_example =
    onboard_in_place cluster cluster-ReadsBack surroundings ctx request usecase none refl onboarded

-- A use case that counts its calls.
abbrev counting : Context → OnboardingRequest → ℕ → Result (Unit {0}) × ℕ
counting c r n = (ok tt, suc n)

onboard_iff_example : ((Controller.onboard counting ctx (some "g") 0).0.0 ≡ onboard_ok) ↔ (
    (u : User) × IsAllowed counting ctx (some "g") u
    × ((counting ctx (request_of counting u (some "g")) 0).0 ≡ ok tt))
onboard_iff_example = onboard_iff counting ctx (some "g") 0
