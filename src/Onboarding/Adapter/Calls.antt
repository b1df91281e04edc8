-- ===== src/Onboarding/Adapter/Calls.antt =====
-- The single calls of `ApplyResourceQuotas`, on a cluster that reads back what was written.
use onyxia_backend.Common.{
  String, ◌≡◌, refl, true, false, none, some, [], ◌∷◌, Dict, lookup, HasDistinctKeys, eq_iff, Error,
  Result, ok, err, arith,
}
use onyxia_backend.Common.Text.{same}
use onyxia_backend.Onboarding.Domain.{
  QuotaApplicationResult, quota_created, quota_updated, quota_unchanged, quota_ignored,
}
use onyxia_backend.Onboarding.Adapter.{
  Cluster, ResourceQuota, quota_name, is_ignored, resource_quota, differs, quotas_are_different,
  reported, after_get,
}

-- What the adapter relies on, with no other writer: a read changes nothing and finds the object of
-- the name that is asked for; an object that was created or updated is read back with its limits and
-- annotations; a quantity equals itself.
pub record ReadsBack (c : Cluster) : Type 0 where
  pub reads : (ns name : String) (s : c.State) → (c.get_quota ns name s).1 ≡ s
  pub named :
      (ns name : String) (s : c.State) (q : ResourceQuota c.Quantity)
      → (c.get_quota ns name s).0 ≡ ok q
      → q.name ≡ name
  pub created :
      (ns : String) (q : ResourceQuota c.Quantity) (s s' : c.State)
      → c.create_quota ns q s ≡ (ok tt, s')
      → (q' : ResourceQuota c.Quantity) × ((c.get_quota ns q.name s').0 ≡ ok q')
        × (q'.hard ≡ q.hard)
        × (q'.annotations ≡ q.annotations)
  pub updated :
      (ns : String) (q : ResourceQuota c.Quantity) (s s' : c.State)
      → c.update_quota ns q s ≡ (ok tt, s')
      → (q' : ResourceQuota c.Quantity) × ((c.get_quota ns q.name s').0 ≡ ok q')
        × (q'.hard ≡ q.hard)
        × (q'.annotations ≡ q.annotations)
  pub equal_refl : (x : c.Quantity) → c.equal x x ≡ true

module _ (c : Cluster) (laws : ReadsBack c) where
  open c use {Quantity, equal, State, get_quota, create_quota, update_quota}

  -- Every limit of a part of a map is the one that the map has.
  abbrev Within : Dict Quantity → Dict Quantity → Type 0
  Within m [] = Unit
  Within m ((k, v) ∷ rest) = (lookup k m ≡ some v) × Within m rest

  Within-cons :
      (k : String) (v : Quantity) (m rest : Dict Quantity)
      → lookup k rest ≡ none
      → Within m rest
      → Within ((k, v) ∷ m) rest
  unfolding lookup
  Within-cons k v m [] h w = tt
  Within-cons k v m ((j, x) ∷ rest) h w =
      (ground (arith, eq_iff k j, eq_iff j k), Within-cons k v m rest (ground arith) w.1)

  Within-refl : (m : Dict Quantity) → HasDistinctKeys m → Within m m
  Within-refl [] d = tt
  Within-refl ((k, v) ∷ m) d =
      (unfold lookup in ground (arith, eq_iff k k), Within-cons k v m m d.0 (Within-refl m d.1))

  differs-Within : (m rest : Dict Quantity) → Within m rest → differs c m rest ≡ false
  unfolding differs
  differs-Within m [] w = refl
  differs-Within m ((k, v) ∷ rest) w = ground (arith, differs-Within m rest w.1, laws.equal_refl v)

  -- A quota does not differ from one with the same limits.
  pub not-different :
      (q q' : ResourceQuota Quantity)
      → HasDistinctKeys q.hard
      → q'.hard ≡ q.hard
      → quotas_are_different c q' q ≡ false
  unfolding quotas_are_different
  not-different q q' d e =
      rw e (ground (arith, differs-Within q.hard q.hard (Within-refl q.hard d)))

  module _ (ns : String) (m : Dict Quantity) (d : HasDistinctKeys m) where
    abbrev pub wanted : ResourceQuota Quantity
    wanted = resource_quota c m

    abbrev pub found : State → Result (ResourceQuota Quantity) × State
    found s = get_quota ns quota_name s

    -- Once the object has the limits that are asked for, a call changes nothing.
    pub ready :
        (s : State) (q : ResourceQuota Quantity)
        → (found s).0 ≡ ok q
        → is_ignored c q ≡ false
        → q.hard ≡ m
        → after_get c ns wanted (found s) ≡ (ok quota_unchanged, s)
    unfolding after_get
    ready s q e live same =
        ground (arith, laws.reads ns quota_name s, not-different wanted q d same)

    pub ignored_annotations :
        (q q' : ResourceQuota Quantity)
        → q'.annotations ≡ q.annotations
        → is_ignored c q ≡ false
        → is_ignored c q' ≡ false
    ignored_annotations q q' e h = rw e h

    pub unchanged_of_ignored :
        (s : State) (q : ResourceQuota Quantity)
        → (found s).0 ≡ ok q
        → is_ignored c q ≡ true
        → after_get c ns wanted (found s) ≡ (ok quota_ignored, s)
    unfolding after_get
    unchanged_of_ignored s q e h = ground (arith, laws.reads ns quota_name s)

    pub unchanged_of_same :
        (s : State) (q : ResourceQuota Quantity)
        → (found s).0 ≡ ok q
        → is_ignored c q ≡ false
        → quotas_are_different c q wanted ≡ false
        → after_get c ns wanted (found s) ≡ (ok quota_unchanged, s)
    unfolding after_get
    unchanged_of_same s q e live same = ground (arith, laws.reads ns quota_name s)

    pub update_of_different :
        (s s' : State) (q : ResourceQuota Quantity) (r : QuotaApplicationResult)
        → (found s).0 ≡ ok q
        → is_ignored c q ≡ false
        → quotas_are_different c q wanted ≡ true
        → after_get c ns wanted (found s) ≡ (ok r, s')
        → (update_quota ns (record q { hard = m }) s ≡ (ok tt, s')) × (r ≡ quota_updated)
    unfolding after_get reported
    update_of_different s s' q r e live different h =
        (ground (arith, laws.reads ns quota_name s), ground (arith, laws.reads ns quota_name s))

    pub create_of_missing :
        (s s' : State) (e : Error) (r : QuotaApplicationResult)
        → (found s).0 ≡ err e
        → after_get c ns wanted (found s) ≡ (ok r, s')
        → (create_quota ns wanted s ≡ (ok tt, s')) × (r ≡ quota_created)
    unfolding after_get reported
    create_of_missing s s' e r p h =
        (ground (arith, laws.reads ns quota_name s), ground (arith, laws.reads ns quota_name s))
