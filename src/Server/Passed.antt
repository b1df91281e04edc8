-- ===== src/Server/Passed.antt =====
-- Which requests the security block of a handler lets pass.
use onyxia_backend.Common.{
  ◌≡◌, ◌⊎◌, inl, inr, refl, Bool, true, List, Option, none, [], ◌∷◌, Error, arith, Option-cases,
  Bool-cases,
}
use onyxia_backend.UserContext.{Context}
use onyxia_backend.Dpop.Request.{Request}
use onyxia_backend.Server.{
  Incoming, request_of, ServerError, Reply, failed, HttpLib, security_oidc, secured, guarded,
  is_satisfied,
}

pub secured_cases :
    (o : Context ⊎ ServerError) → ((x : Context) × (o ≡ inl x)) ⊎ ((e : ServerError) × (o ≡ inr e))
secured_cases (inl x) = inl (x, refl)
secured_cases (inr e) = inr (e, refl)

module _ {C : Type 0} (lib : HttpLib)
    (handle_oidc : Context → Request → C → Context × Option Error × C) where
  -- With the scheme required, a request passes exactly if its handler has no error, in the context
  -- that the handler made.
  pub secured_lem :
      (ctx : Context) (r : Incoming) (c : C) (sctx : Context)
      → (secured lib handle_oidc (true ∷ []) ctx r c).0 ≡ inl sctx
      → ((handle_oidc ctx (request_of r) c).1 ≡ none)
        × ((handle_oidc ctx (request_of r) c).0 ≡ sctx)
  unfolding secured security_oidc is_satisfied
  secured_lem ctx r c sctx h = elim (Option-cases (handle_oidc ctx (request_of r) c).1) [
    | inl e ↦ (e, ground arith)
    | inr (x, e) ↦ elim (Bool-cases (lib.is_skip x)) [ inl k ↦ ground arith | inr k ↦ ground arith ]
  ]

  pub secured_back :
      (ctx : Context) (r : Incoming) (c : C) (sctx : Context)
      → (handle_oidc ctx (request_of r) c).1 ≡ none
      → (handle_oidc ctx (request_of r) c).0 ≡ sctx
      → (secured lib handle_oidc (true ∷ []) ctx r c).0 ≡ inl sctx
  unfolding secured security_oidc is_satisfied
  secured_back ctx r c sctx e d = ground arith

  -- A handler either fails in its security block, and nothing else is done, or goes on in the context
  -- that the block leaves.
  pub guarded_cases :
      {S : Type 0} (requirements : List Bool) (next : Context → S → Reply × S) (ctx : Context)
      (r : Incoming) (c : C) (s : S)
      → ((e : ServerError) × ((guarded lib handle_oidc requirements next ctx r c s).0 ≡ failed e)
          × ((guarded lib handle_oidc requirements next ctx r c s).2 ≡ s))
        ⊎ ((sctx : Context) × ((secured lib handle_oidc requirements ctx r c).0 ≡ inl sctx)
            × ((guarded lib handle_oidc requirements next ctx r c s).0 ≡ (next sctx s).0)
            × ((guarded lib handle_oidc requirements next ctx r c s).2 ≡ (next sctx s).1))
  unfolding guarded
  guarded_cases requirements next ctx r c s =
      elim (secured_cases (secured lib handle_oidc requirements ctx r c).0) [
        | inl (sctx, p) ↦ inr (sctx, p, ground arith, ground arith)
        | inr (e, p) ↦ inl (e, ground arith, ground arith)
      ]

  pub guarded-passed :
      {S : Type 0} (next : Context → S → Reply × S) (ctx : Context) (r : Incoming) (c : C) (s : S)
      (sctx : Context)
      → (handle_oidc ctx (request_of r) c).1 ≡ none
      → (handle_oidc ctx (request_of r) c).0 ≡ sctx
      → (guarded lib handle_oidc (true ∷ []) next ctx r c s).0 ≡ (next sctx s).0
  unfolding guarded
  guarded-passed next ctx r c s sctx e d =
      let p = secured_back ctx r c sctx e d in ground (arith, p)
