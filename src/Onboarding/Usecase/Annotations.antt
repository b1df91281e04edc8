-- ===== src/Onboarding/Usecase/Annotations.antt =====
-- What a namespace is annotated with, and what one request leaves behind for the next.
use onyxia_backend.Common.{
  String, ◌≡◌, refl, true, Option, none, some, List, [], ◌∷◌, Dict, lookup, insert, lookup-insert,
  contains, ◌==◌, eq_iff, ◌&&◌, if◌then◌else◌, arith, Option-cases, inl, inr, ◌∙◌, ap,
}
use onyxia_backend.Common.Any.{Any}
use onyxia_backend.UserContext.{Context, get_attributes}
use onyxia_backend.Onboarding.Domain.{Dynamic}
use onyxia_backend.Onboarding.Usecase.{
  OnboardingUsecase, Surroundings, last_login_timestamp_key, sprint, annotate, written,
  get_namespace_annotations,
}

annotate_lem :
    (w : Surroundings) (attributes : Dict Any) (attrs : List String) (m : Dict String) (k : String)
    → lookup k (annotate w attributes attrs m)
      ≡ (if contains attrs k then some (sprint w (lookup k attributes)) else lookup k m)
unfolding annotate
annotate_lem w attributes [] m k = refl
annotate_lem w attributes (a ∷ attrs) m k = ground (
  arith,
  annotate_lem w attributes attrs (insert a (sprint w (lookup a attributes)) m) k,
  lookup-insert a k (sprint w (lookup a attributes)) m,
  eq_iff a k,
)

-- The time of the login, if it is asked for
abbrev stamp : Surroundings → Dynamic → String → Option String → Option String
stamp w dynamic k o =
    if dynamic.last_login_timestamp && last_login_timestamp_key == k then some w.unix_milli else o

stamped_lem :
    (w : Surroundings) (dynamic : Dynamic) (m : Dict String) (k : String)
    → lookup k
        (if dynamic.last_login_timestamp then insert last_login_timestamp_key w.unix_milli m else m)
      ≡ stamp w dynamic k (lookup k m)
stamped_lem w dynamic m k = ground (arith, lookup-insert last_login_timestamp_key k w.unix_milli m)

-- What a namespace is to be annotated with at a key: an attribute of the user, if the configuration
-- lists it and the user has attributes, or else the time of the login, or else `o`.
abbrev pub annotation_at :
    Surroundings → Option (Dict Any) → Dynamic → String → Option String → Option String
annotation_at w none dynamic k o = stamp w dynamic k o
annotation_at w (some attributes) dynamic k o =
    if contains dynamic.user_attributes k
    then some (sprint w (lookup k attributes))
    else stamp w dynamic k o

written_lem :
    (w : Surroundings) (ctx : Context) (dynamic : Dynamic) (m : Dict String) (k : String)
    → lookup k (written w ctx dynamic m)
      ≡ annotation_at w (get_attributes ctx) dynamic k (lookup k m)
unfolding written
written_lem w ctx dynamic m k = elim (Option-cases (get_attributes ctx)) [
  | inl e ↦ rw (e, written) (stamped_lem w dynamic m k)
  | inr (attributes, e) ↦
      rw (e, written)
        (annotate_lem w attributes dynamic.user_attributes
            (if dynamic.last_login_timestamp
              then insert last_login_timestamp_key w.unix_milli m
              else m)
            k
          ∙ ap
              (λ o.
                if contains dynamic.user_attributes k
                then some (sprint w (lookup k attributes))
                else o)
              (stamped_lem w dynamic m k))
]

abbrev pub static_entries : OnboardingUsecase → Dict String
static_entries s = elim s.namespace.annotation.static [ none ↦ [] | some m ↦ m ]

-- What an onboarding leaves as it is: everything but the static map
pub record OnlyStatic (s s' : OnboardingUsecase) : Type 0 where
  pub quotas : s'.quotas ≡ s.quotas
  pub prefix : s'.namespace.namespace_prefix ≡ s.namespace.namespace_prefix
  pub group_prefix : s'.namespace.group_namespace_prefix ≡ s.namespace.group_namespace_prefix
  pub labels : s'.namespace.namespace_labels ≡ s.namespace.namespace_labels
  pub enabled : s'.namespace.annotation.enabled ≡ s.namespace.annotation.enabled
  pub dynamic : s'.namespace.annotation.dynamic ≡ s.namespace.annotation.dynamic

-- The static map of a configuration that has one is the map that the annotations are written to.
abbrev pub static_after : OnboardingUsecase → Dict String → Option (Dict String)
static_after s m = elim s.namespace.annotation.static [ none ↦ none | some m0 ↦ some m ]

get_namespace_annotations-OnlyStatic :
    (w : Surroundings) (ctx : Context) (s : OnboardingUsecase)
    → s.namespace.annotation.enabled ≡ true
    → OnlyStatic s (get_namespace_annotations w ctx s).1
      × ((get_namespace_annotations w ctx s).1.namespace.annotation.static
          ≡ static_after s (written w ctx s.namespace.annotation.dynamic (static_entries s)))
unfolding get_namespace_annotations
get_namespace_annotations-OnlyStatic w ctx s on =
    elim (Option-cases s.namespace.annotation.static) [
      | inl e ↦ (
        record {
          quotas = ground arith;
          prefix = ground arith;
          group_prefix = ground arith;
          labels = ground arith;
          enabled = ground arith;
          dynamic = ground arith;
        },
        ground arith,
      )
      | inr (m0, e) ↦ (
        record {
          quotas = ground arith;
          prefix = ground arith;
          group_prefix = ground arith;
          labels = ground arith;
          enabled = ground arith;
          dynamic = ground arith;
        },
        ground arith,
      )
    ]

-- With annotations enabled, a namespace is annotated, at each key, with the user's attribute if it
-- is listed and the user has attributes, or else with the time of the login at its key if that is
-- asked for, or else with what the static map holds at that moment. A static map, if there is one,
-- holds these annotations from then on; the quotas, the prefixes, the labels and the rest of the
-- configuration of annotations stay as they are.
pub lookup-get_namespace_annotations :
    (w : Surroundings) (ctx : Context) (s : OnboardingUsecase)
    → s.namespace.annotation.enabled ≡ true
    → (m : Dict String) × ((get_namespace_annotations w ctx s).0 ≡ some m)
      × ((k : String)
          → lookup k m
            ≡ annotation_at w
                (get_attributes ctx)
                s.namespace.annotation.dynamic
                k
                (lookup k (static_entries s)))
      × OnlyStatic s (get_namespace_annotations w ctx s).1
      × ((get_namespace_annotations w ctx s).1.namespace.annotation.static ≡ static_after s m)
unfolding get_namespace_annotations
lookup-get_namespace_annotations w ctx s on =
    let (same, static) = get_namespace_annotations-OnlyStatic w ctx s on in
    (
      written w ctx s.namespace.annotation.dynamic (static_entries s),
      ground arith,
      λ k. written_lem w ctx s.namespace.annotation.dynamic (static_entries s) k,
      same,
      static,
    )
