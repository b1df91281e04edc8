-- ===== src/Onboarding/Adapter/Effect.antt =====
-- What an applied quota means for the cluster.
use onyxia_backend.Common.{
  String, ◌≡◌, ◌⊎◌, inl, inr, refl, [], ◌∷◌, Dict, lookup, HasDistinctKeys, Result, ok, err, arith,
  Bool-cases, Result-cases, ap, sym, ◌∙◌,
}
use onyxia_backend.Onboarding.Domain.{Quota, QuotaApplicationResult, quota_created, quota_updated}
use onyxia_backend.Onboarding.Adapter.{
  Cluster, ResourceQuota, quota_name, resource_quota, is_ignored, quotas_are_different, after_get,
  apply_limits, apply_resource_quotas, convert_quota_to_resource_map, quota_entries,
}
use onyxia_backend.Onboarding.Adapter.Convert.{limit_of, converted_keys, converted_limits}
use onyxia_backend.Onboarding.Adapter.Calls.{
  ReadsBack, update_of_different, create_of_missing, unchanged_of_same, unchanged_of_ignored,
}

-- The result says that the adapter wrote a quota.
abbrev pub Wrote : QuotaApplicationResult → Type 0
Wrote r = (r ≡ quota_created) ⊎ (r ≡ quota_updated)

module _ (c : Cluster) (laws : ReadsBack c) where
  open c use {Quantity, State, get_quota}

  abbrev Holds : String → Dict Quantity → State → Type 0
  Holds ns m s =
      (q : ResourceQuota Quantity) × ((get_quota ns quota_name s).0 ≡ ok q) × (q.hard ≡ m)

  after_get-Holds :
      (ns : String) (m : Dict Quantity) (d : HasDistinctKeys m) (s s' : State)
      (r : QuotaApplicationResult)
      → after_get c ns (resource_quota c m) (get_quota ns quota_name s) ≡ (ok r, s')
      → Wrote r
      → Holds ns m s'
  after_get-Holds ns m d s s' r h wrote = elim (Result-cases (get_quota ns quota_name s).0) [
    | inr (e, p) ↦
        let (u, ru) = create_of_missing c laws ns m d s s' e r p h in
        let (q', got, hard, notes) = laws.created ns (resource_quota c m) s s' u in (q', got, hard)
    | inl (q, e) ↦ elim (Bool-cases (is_ignored c q)) [
      | inl ignored ↦ absurd (ground (arith, unchanged_of_ignored c laws ns m d s q e ignored))
      | inr live ↦ elim (Bool-cases (quotas_are_different c q (resource_quota c m))) [
        | inl different ↦
            let (u, ru) = update_of_different c laws ns m d s s' q r e live different h in
            let (q', got, hard, notes) = laws.updated ns (record q { hard = m }) s s' u in
            (q', ap (λ n. (get_quota ns n s').0) (sym (laws.named ns quota_name s q e)) ∙ got, hard)
        | inr same ↦ absurd (ground (arith, unchanged_of_same c laws ns m d s q e live same))
      ]
    ]
  ]

  apply_limits-Holds :
      (ns : String) (l : Result (Dict Quantity)) (s s' : State) (r : QuotaApplicationResult)
      → ((m : Dict Quantity) → l ≡ ok m → HasDistinctKeys m)
      → apply_limits c ns l s ≡ (ok r, s')
      → Wrote r
      → (m : Dict Quantity) × (l ≡ ok m) × Holds ns m s'
  unfolding apply_limits
  apply_limits-Holds ns (err e) s s' r d h wrote = cc
  apply_limits-Holds ns (ok []) s s' r d h wrote = absurd (ground arith)
  apply_limits-Holds ns (ok (kv ∷ m)) s s' r d h wrote =
      (kv ∷ m, refl, after_get-Holds ns (kv ∷ m) (d (kv ∷ m) refl) s s' r h wrote)

  -- On a cluster that reads back what was written, if applying a quota reports that the quota was
  -- created or updated, then the namespace has a quota object whose limit for each resource is the
  -- value that the quota gives for it, parsed, and which has no other limits.
  pub apply_effect :
      (ns : String) (quota : Quota) (s s' : State) (r : QuotaApplicationResult)
      → apply_resource_quotas c ns quota s ≡ (ok r, s')
      → Wrote r
      → (q : ResourceQuota Quantity) × ((get_quota ns quota_name s').0 ≡ ok q)
        × ((k : String) → lookup k q.hard ≡ limit_of c (lookup k (quota_entries quota)))
  unfolding apply_resource_quotas
  apply_effect ns quota s s' r h wrote =
      let (m, e, held) =
        apply_limits-Holds ns (convert_quota_to_resource_map c quota) s s' r
          (λ m e. converted_keys c quota m e) h wrote in
      (held.0, held.1, λ k. ap (lookup k) held.2 ∙ converted_limits c quota m k e)
