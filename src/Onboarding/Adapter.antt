-- ===== src/Onboarding/Adapter.antt =====
-- onboarding/adapter/kubernetes/namespace_service.go
pub mod Convert
pub mod Calls
pub mod Converge
pub mod Effect
use onyxia_backend.Common.{
  String, ◌≡◌, refl, Bool, true, false, Option, none, some, List, [], ◌∷◌, Dict, lookup, insert,
  length, is_empty, ◌==◌, not, ◌&&◌, ◌||◌, if◌then◌else◌, Error, errorf, Result, ok, err,
  is_already_exists, is_not_found, wrapping, wrapf,
}
use onyxia_backend.Common.Text.{same}
use onyxia_backend.Onboarding.Domain.{
  Quota, NamespaceCreationResult, namespace_created, namespace_already_exists,
  namespace_annotations_updated, QuotaApplicationResult, quota_created, quota_updated,
  quota_unchanged, quota_ignored,
}

abbrev pub quota_name : String
quota_name = "onyxia-quota"

abbrev pub ignore_quota_annotation : String
ignore_quota_annotation = "onyxia.sh/ignore"

-- The objects of the Kubernetes API, as far as the adapter sets or reads them. The annotations and the
-- labels of a namespace may be the nil map.
pub record NamespaceObject : Type 0 where
  pub name : String
  pub annotations : Option (Dict String)
  pub labels : Option (Dict String)

pub record ResourceQuota (Quantity : Type 0) : Type 0 where
  pub name : String
  pub labels : Dict String
  pub annotations : Dict String
  pub hard : Dict Quantity

-- What the adapter takes from Kubernetes and from encoding/json: quantities, the calls of a cluster
-- with a state, and the encoding of a merge patch of the annotations and the labels.
pub record Cluster : Type 1 where
  pub Quantity : Type 0
  pub parse_quantity : String → Result Quantity
  pub equal : Quantity → Quantity → Bool
  pub Patch : Type 0
  pub marshal : Option (Dict String) → Option (Dict String) → Result Patch
  pub State : Type 0
  pub create_namespace_object : NamespaceObject → State → Result (Unit {0}) × State
  pub patch_namespace : String → Patch → State → Result (Unit {0}) × State
  pub get_quota : (namespace name : String) → State → Result (ResourceQuota Quantity) × State
  pub create_quota : String → ResourceQuota Quantity → State → Result (Unit {0}) × State
  pub update_quota : String → ResourceQuota Quantity → State → Result (Unit {0}) × State

-- The entries of `quotaEntries`
unfoldable pub quota_entries : Quota → Dict String
quota_entries q =
    ("requests.memory", q.memory_request)
    ∷ ("requests.cpu", q.cpu_request)
    ∷ ("limits.memory", q.memory_limit)
    ∷ ("limits.cpu", q.cpu_limit)
    ∷ ("requests.storage", q.storage_request)
    ∷ ("count/pods", q.max_pods)
    ∷ ("requests.ephemeral-storage", q.ephemeral_storage_request)
    ∷ ("limits.ephemeral-storage", q.ephemeral_storage_limit)
    ∷ ("requests.nvidia.com/gpu", q.gpu_request)
    ∷ ("limits.nvidia.com/gpu", q.gpu_limit)
    ∷ []

abbrev no_annotations : Option (Dict String) → Bool
no_annotations none = true
no_annotations (some m) = is_empty m

module _ (c : Cluster) where
  open c use {Quantity, parse_quantity, equal, Patch, marshal, State}
  open c use {create_namespace_object, patch_namespace, get_quota, create_quota, update_quota}

  patched : Result (Unit {0}) × State → Result NamespaceCreationResult × State
  patched (ok u, s) = (ok namespace_annotations_updated, s)
  patched (err e, s) = (err (wrapf "failed to update namespace annotations: %w" [] e), s)

  send_patch : String → Result Patch → State → Result NamespaceCreationResult × State
  unfolding patched
  send_patch name (err e) s = (err (wrapf "failed to marshal patch data: %w" [] e), s)
  send_patch name (ok p) s = patched (patch_namespace name p s)

  after_create :
      NamespaceObject → Result (Unit {0}) × State → Result NamespaceCreationResult × State
  unfolding send_patch
  after_create o (ok u, s) = (ok namespace_created, s)
  after_create o (err e, s) =
      let patch = send_patch o.name (marshal o.annotations o.labels) s in
      if is_already_exists e
      then (if no_annotations o.annotations then (ok namespace_already_exists, s) else patch)
      else (err (wrapf "failed to create namespace: %w" [] e), s)

  -- `CreateNamespace`
  unfoldable pub create_namespace :
      (name : String)
      → Option (Dict String)
      → Option (Dict String)
      → State
      → Result NamespaceCreationResult × State
  unfolding after_create
  create_namespace name annotations labels s =
      let o : NamespaceObject = record {
        name = name;
        annotations = annotations;
        labels = labels;
      } in
      after_create o (create_namespace_object o s)

  -- The loop of `convertQuotaToResourceMap`, over the entries in any order
  unfoldable pub convert_entries : Dict String → Dict Quantity → Result (Dict Quantity)
  convert_entries [] hard_limits = ok hard_limits
  convert_entries ((key, value) ∷ entries) hard_limits = elim (value == "") [
    | true ↦ convert_entries entries hard_limits
    | false ↦ elim (parse_quantity value) [
      | err e ↦ err e
      | ok quantity ↦ convert_entries entries (insert key quantity hard_limits)
    ]
  ]

  unfoldable pub convert_quota_to_resource_map : Quota → Result (Dict Quantity)
  unfolding convert_entries quota_entries
  convert_quota_to_resource_map quota = convert_entries (quota_entries quota) []

  differs : Dict Quantity → Dict Quantity → Bool
  differs existing [] = false
  differs existing ((key, new_value) ∷ rest) =
      let more = differs existing rest in
      elim (lookup key existing) [
        | none ↦ true
        | some value ↦ if not (equal value new_value) then true else more
      ]

  -- `quotasAreDifferent`
  unfoldable pub quotas_are_different : ResourceQuota Quantity → ResourceQuota Quantity → Bool
  unfolding differs lookup
  quotas_are_different existing new_quota =
      if not (same (length existing.hard) (length new_quota.hard))
      then true
      else differs existing.hard new_quota.hard

  abbrev pub is_ignored : ResourceQuota Quantity → Bool
  is_ignored q = elim (lookup ignore_quota_annotation q.annotations) [
    | none ↦ false
    | some ignore ↦ ignore == "true"
  ]

  -- The quota object that is asked for
  abbrev pub resource_quota : Dict Quantity → ResourceQuota Quantity
  resource_quota hard_limits = record {
    name = quota_name;
    labels = ("created-by", "onyxia") ∷ [];
    annotations = [];
    hard = hard_limits;
  }

  reported :
      String
      → QuotaApplicationResult
      → Result (Unit {0}) × State
      → Result QuotaApplicationResult × State
  reported format result (ok u, s) = (ok result, s)
  reported format result (err e, s) = (err (wrapf format [] e), s)

  pub after_get :
      (namespace : String)
      → ResourceQuota Quantity
      → Result (ResourceQuota Quantity) × State
      → Result QuotaApplicationResult × State
  unfolding reported quotas_are_different
  after_get namespace wanted (ok existing, s) =
      let updated =
        reported "failed to update resource quota: %w" quota_updated
          (update_quota namespace (record existing { hard = wanted.hard }) s) in
      if is_ignored existing
      then (ok quota_ignored, s)
      else if not (quotas_are_different existing wanted)
      then (ok quota_unchanged, s)
      else updated
  after_get namespace wanted (err e, s) =
      let created =
        reported "failed to create resource quota: %w" quota_created
          (create_quota namespace wanted s) in
      if is_not_found e
      then created
      else (err (wrapf "unexpected error checking for existing quota: %w" [] e), s)

  apply_limits :
      (namespace : String) → Result (Dict Quantity) → State → Result QuotaApplicationResult × State
  unfolding after_get
  apply_limits namespace (err e) s =
      (err (wrapf "error converting quota to ResourceQuota: %w" [] e), s)
  apply_limits namespace (ok hard_limits) s =
      let found = get_quota namespace quota_name s in
      if is_empty hard_limits
      then (ok quota_unchanged, s)
      else after_get namespace (resource_quota hard_limits) found

  -- `ApplyResourceQuotas`
  unfoldable pub apply_resource_quotas :
      (namespace : String) → Quota → State → Result QuotaApplicationResult × State
  unfolding apply_limits
  apply_resource_quotas namespace quota =
      apply_limits namespace (convert_quota_to_resource_map quota)
