-- ===== src/Onboarding/Adapter/Converge.antt =====
-- Applying a quota twice changes the cluster once.
use onyxia_backend.Common.{
  String, ◌≡◌, refl, [], ◌∷◌, Dict, lookup, HasDistinctKeys, inl, inr, Result, ok, err, arith,
  Bool-cases, Result-cases, ap, sym, ◌∙◌,
}
use onyxia_backend.Common.Text.{same}
use onyxia_backend.Onboarding.Domain.{Quota, QuotaApplicationResult, quota_unchanged, quota_ignored}
use onyxia_backend.Onboarding.Adapter.{
  Cluster, ResourceQuota, quota_name, is_ignored, resource_quota, quotas_are_different, after_get,
  apply_limits, apply_resource_quotas, convert_quota_to_resource_map,
}
use onyxia_backend.Onboarding.Adapter.Convert.{converted_keys}
use onyxia_backend.Onboarding.Adapter.Calls.{
  ReadsBack, ready, ignored_annotations, unchanged_of_ignored, unchanged_of_same,
  update_of_different, create_of_missing,
}

-- What a repeated call reports
abbrev pub settled : QuotaApplicationResult → QuotaApplicationResult
settled quota_ignored = quota_ignored
settled _ = quota_unchanged

module _ (c : Cluster) (laws : ReadsBack c) where
  open c use {Quantity, State, get_quota}

  module _ (ns : String) (m : Dict Quantity) (d : HasDistinctKeys m) where
    abbrev Applied : State → QuotaApplicationResult → State → Type 0
    Applied s r s' = after_get c ns (resource_quota c m) (get_quota ns quota_name s) ≡ (ok r, s')

    -- A call that leaves the state alone is the same when it is repeated.
    stays :
        (s s' : State) (r r' : QuotaApplicationResult)
        → settled r ≡ r
        → Applied s r s
        → Applied s r' s'
        → Applied s' (settled r') s'
    stays s s' r r' fixed k h =
        let p : s ≡ s' = cc (k, h) in let q : r ≡ r' = cc (k, h) in rw (← p, ← q, fixed) k

    settles_found :
        (s s' : State) (q : ResourceQuota Quantity) (r : QuotaApplicationResult)
        → (get_quota ns quota_name s).0 ≡ ok q
        → Applied s r s'
        → Applied s' (settled r) s'
    settles_found s s' q r e h = elim (Bool-cases (is_ignored c q)) [
      | inl ignored ↦
          stays s s' quota_ignored r refl (unchanged_of_ignored c laws ns m d s q e ignored) h
      | inr live ↦ elim (Bool-cases (quotas_are_different c q (resource_quota c m))) [
        | inl different ↦
            let (u, ru) = update_of_different c laws ns m d s s' q r e live different h in
            let (q', got, hard, notes) = laws.updated ns (record q { hard = m }) s s' u in
            rw ru (
              ready c laws ns m d s' q'
                (ap (λ n. (get_quota ns n s').0) (sym (laws.named ns quota_name s q e)) ∙ got)
                (ignored_annotations c laws ns m d q q' notes live) hard)
        | inr same ↦
            stays s s' quota_unchanged r refl (unchanged_of_same c laws ns m d s q e live same) h
      ]
    ]

    settles :
        (s s' : State) (r : QuotaApplicationResult) → Applied s r s' → Applied s' (settled r) s'
    settles s s' r h = elim (Result-cases (get_quota ns quota_name s).0) [
      | inl (q, e) ↦ settles_found s s' q r e h
      | inr (e, p) ↦
          let (u, ru) = create_of_missing c laws ns m d s s' e r p h in
          let (q', got, hard, notes) = laws.created ns (resource_quota c m) s s' u in
          rw ru (
            ready c laws ns m d s' q' got
              (ignored_annotations c laws ns m d (resource_quota c m) q' notes
                (unfold lookup in refl))
              hard)
    ]

  apply_limits-settles :
      (ns : String) (l : Result (Dict Quantity)) (s s' : State) (r : QuotaApplicationResult)
      → ((m : Dict Quantity) → l ≡ ok m → HasDistinctKeys m)
      → apply_limits c ns l s ≡ (ok r, s')
      → apply_limits c ns l s' ≡ (ok (settled r), s')
  unfolding apply_limits
  apply_limits-settles ns (err e) s s' r d h = cc
  apply_limits-settles ns (ok []) s s' r d h = ground arith
  apply_limits-settles ns (ok (kv ∷ m)) s s' r d h = settles ns (kv ∷ m) (d (kv ∷ m) refl) s s' r h

  -- On a cluster that reads back what was written, a quota that was applied with success is settled:
  -- applied again, it writes nothing, and reports a quota that is unchanged, or one that is ignored
  -- if it was ignored before.
  pub apply_twice :
      (ns : String) (quota : Quota) (s s' : State) (r : QuotaApplicationResult)
      → apply_resource_quotas c ns quota s ≡ (ok r, s')
      → apply_resource_quotas c ns quota s' ≡ (ok (settled r), s')
  unfolding apply_resource_quotas
  apply_twice ns quota s s' r h =
      apply_limits-settles ns (convert_quota_to_resource_map c quota) s s' r
        (converted_keys c quota) h
