-- ===== src/Onboarding/Domain.antt =====
-- onboarding/domain, the results of onboarding/port, and the quotas of onboarding/bootstrap/env.go
-- with their conversion in onboarding/api/route/onboarding.go.
use onyxia_backend.Common.{String, Bool, Option, List, [], ◌∷◌, Dict}

pub record Quota : Type 0 where
  pub memory_request : String
  pub cpu_request : String
  pub memory_limit : String
  pub cpu_limit : String
  pub storage_request : String
  pub max_pods : String
  pub ephemeral_storage_request : String
  pub ephemeral_storage_limit : String
  pub gpu_request : String
  pub gpu_limit : String

pub record Quotas : Type 0 where
  pub enabled : Bool
  pub default : Quota
  pub user_enabled : Bool
  pub user : Quota
  pub group_enabled : Bool
  pub group : Quota
  pub roles : Dict Quota

pub record Dynamic : Type 0 where
  pub last_login_timestamp : Bool
  pub user_attributes : List String

-- `static`, and the labels of a namespace, may be the nil map.
pub record Annotation : Type 0 where
  pub enabled : Bool
  pub static : Option (Dict String)
  pub dynamic : Dynamic

pub record Namespace : Type 0 where
  pub namespace_prefix : String
  pub group_namespace_prefix : String
  pub annotation : Annotation
  pub namespace_labels : Option (Dict String)

pub record OnboardingRequest : Type 0 where
  pub group : Option String
  pub user_name : String
  pub user_roles : List String

pub data NamespaceCreationResult : Type 0 where
  namespace_created namespace_already_exists namespace_annotations_updated : NamespaceCreationResult

pub data QuotaApplicationResult : Type 0 where
  quota_created quota_updated quota_unchanged quota_ignored : QuotaApplicationResult

-- The quota as the configuration spells it.
pub record BootstrapQuota : Type 0 where
  pub requests_memory : String
  pub requests_cpu : String
  pub limits_memory : String
  pub limits_cpu : String
  pub requests_storage : String
  pub count_pods : String
  pub requests_ephemeral_storage : String
  pub limits_ephemeral_storage : String
  pub requests_gpu : String
  pub limits_gpu : String

-- `convertBootstrapQuotaToDomain`
unfoldable pub convert_bootstrap_quota_to_domain : BootstrapQuota → Quota
convert_bootstrap_quota_to_domain q = record {
  memory_request = q.requests_memory;
  cpu_request = q.requests_cpu;
  memory_limit = q.limits_memory;
  cpu_limit = q.limits_cpu;
  storage_request = q.requests_storage;
  max_pods = q.count_pods;
  ephemeral_storage_request = q.requests_ephemeral_storage;
  ephemeral_storage_limit = q.limits_ephemeral_storage;
  gpu_request = q.requests_gpu;
  gpu_limit = q.limits_gpu;
}

-- The loop of `SetupOnboardingController` over the quotas of the roles
unfoldable pub roles_domain_quotas : Dict BootstrapQuota → Dict Quota
unfolding convert_bootstrap_quota_to_domain
roles_domain_quotas [] = []
roles_domain_quotas ((key, q) ∷ roles) =
    (key, convert_bootstrap_quota_to_domain q) ∷ roles_domain_quotas roles
