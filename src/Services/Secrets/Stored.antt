-- ===== src/Services/Secrets/Stored.antt =====
-- What is stored for a release after its secret was ensured or deleted.
use onyxia_backend.Common.{
  String, ◌≡◌, inl, inr, refl, Option, some, Dict, Error, conflict, reason_for_error, Result, ok,
  err, arith, Result-cases, Bool-cases, is_not_found, true,
}
use onyxia_backend.Services.Secrets.{
  onyxia_secret_type, Secret, SecretClient, wanted_secret, or_empty, attempt, after_get,
  after_create, ensure_onyxia_secret, read_onyxia_secret_data, data_of, delete_onyxia_secret,
  missing_is_fine, build_onyxia_secret_name,
}

-- The outcomes of an action that is repeated only after a conflict, once or more often
pub data Retried {S : Type 0} (f : S → Result (Unit {0}) × S)
    : S → Result (Unit {0}) × S → Type 0 where
  once : (s : S) → Retried f s (f s)
  again :
      (s : S) (r : Result (Unit {0}) × S) (e : Error)
      → (f s).0 ≡ err e
      → reason_for_error e ≡ some conflict
      → Retried f (f s).1 r
      → Retried f s r

-- The answer that nothing is found
abbrev pub IsMissing : {A : Type 0} → Result A → Type 0
IsMissing r = (e : Error) × (r ≡ err e) × (is_not_found e ≡ true)

-- A secret that was written is read back, and one that was deleted, or that was not found when it was
-- to be deleted, is missing. A secret that is
-- read has the name it is read by. An action is repeated only after a conflict.
pub record Stores (c : SecretClient) : Type 0 where
  pub created :
      (ns : String) (x : Secret c.Rest) (s : c.State)
      → (c.create ns x s).0 ≡ ok tt
      → (c.get ns x.name (c.create ns x s).1).0 ≡ ok x
  pub updated :
      (ns : String) (x : Secret c.Rest) (s : c.State)
      → (c.update ns x s).0 ≡ ok tt
      → (c.get ns x.name (c.update ns x s).1).0 ≡ ok x
  pub deleted :
      (ns n : String) (s : c.State)
      → (c.delete ns n s).0 ≡ ok tt
      → IsMissing (c.get ns n (c.delete ns n s).1).0
  pub not_deleted :
      (ns n : String) (s : c.State) (e : Error)
      → (c.delete ns n s).0 ≡ err e
      → is_not_found e ≡ true
      → IsMissing (c.get ns n (c.delete ns n s).1).0
  pub named :
      (ns n : String) (s : c.State) (x : Secret c.Rest) → (c.get ns n s).0 ≡ ok x → x.name ≡ n
  pub retried :
      (f : c.State → Result (Unit {0}) × c.State) (s : c.State)
      → Retried f s (c.retry_on_conflict f s)

module _ (c : SecretClient) (laws : Stores c) where
  open c use {Rest, State}

  -- The data can be read after an outcome, if this is a success.
  abbrev Reads : (ns : String) → Secret Rest → Result (Unit {0}) × State → Type 0
  Reads ns sec r =
      r.0 ≡ ok tt
      → (x : Secret Rest) × ((c.get ns sec.name r.1).0 ≡ ok x) × (x.contents ≡ sec.contents)

  attempt-Reads : (ns : String) (sec : Secret Rest) (s : State) → Reads ns sec (attempt c ns sec s)
  unfolding after_get attempt
  attempt-Reads ns sec s h =
      let s' = (c.get ns sec.name s).1 in
      elim (Result-cases (c.get ns sec.name s).0) [
        | inr (e, missing) ↦ (sec, ground (arith, laws.created ns sec s'), refl)
        | inl (cur, found) ↦
            let x = record cur { secret_type = onyxia_secret_type; contents = sec.contents } in
            (x, ground (arith, laws.updated ns x s', laws.named ns sec.name s cur found), refl)
      ]

  Retried-Reads :
      (ns : String) (sec : Secret Rest) (s : State) (r : Result (Unit {0}) × State)
      → Retried (attempt c ns sec) s r
      → Reads ns sec r
  Retried-Reads ns sec _ _ (once s) = attempt-Reads ns sec s
  Retried-Reads ns sec _ r (again s _ e f k later) =
      Retried-Reads ns sec (attempt c ns sec s).1 r later

  -- With a client that reads back what was written and repeats an action only after a conflict:
  -- after the secret of a release was ensured with success, reading the data of this release gives
  -- the data that was asked for, or no entries if that was nil.
  pub read-ensure :
      (ns name : String) (contents : Option (Dict String)) (s : State)
      → (ensure_onyxia_secret c ns name contents s).0 ≡ ok tt
      → (read_onyxia_secret_data c ns name (ensure_onyxia_secret c ns name contents s).1).0
        ≡ ok (or_empty contents)
  unfolding ensure_onyxia_secret after_create read_onyxia_secret_data data_of
  read-ensure ns name contents s h =
      let sec = wanted_secret c ns name contents in
      let s' = (c.create ns sec s).1 in
      let tried = Retried-Reads ns sec s' _ (laws.retried (attempt c ns sec) s') in
      elim (Result-cases (c.create ns sec s).0) [
        | inl (u, made) ↦ ground (arith, laws.created ns sec s)
        | inr (e, failed) ↦ let (x, found, same) = tried (ground arith) in ground arith
      ]

  -- With such a client: after the secret of a release was deleted with success, be it that there was
  -- none, reading the data of this release answers that it is not found.
  pub read-delete :
      (ns name : String) (s : State)
      → (delete_onyxia_secret c ns name s).0 ≡ ok tt
      → IsMissing (read_onyxia_secret_data c ns name (delete_onyxia_secret c ns name s).1).0
  unfolding delete_onyxia_secret read_onyxia_secret_data missing_is_fine data_of
  read-delete ns name s h =
      let n = build_onyxia_secret_name name in
      elim (Result-cases (c.delete ns n s).0) [
        | inl (u, d) ↦ let (e, missing, reason) = laws.deleted ns n s d in (e, ground arith, reason)
        | inr (x, d) ↦ elim (Bool-cases (is_not_found x)) [
          | inl t ↦
              let (e, missing, reason) = laws.not_deleted ns n s x d t in (e, ground arith, reason)
          | inr t ↦ ground arith
        ]
      ]
