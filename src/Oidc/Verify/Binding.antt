-- ===== src/Oidc/Verify/Binding.antt =====
-- A token that is bound to a key is of use only with a proof by that key.
use onyxia_backend.Common.{
  String, ◌≡◌, ◌≢◌, ◌⊎◌, ◌↔◌, refl, Bool, true, false, Option, none, some, ◌==◌, eq_iff, Error,
  Result, ok, err, arith, sym, ◌∙◌, Bool-cases, Option-cases, inl, inr,
}
use onyxia_backend.UserContext.{Context}
use onyxia_backend.Dpop.Jti.{JtiCache, seen}
use onyxia_backend.Dpop.Request.{Url, Request, header_get, absolute_request_url}
use onyxia_backend.Dpop.Verify
use onyxia_backend.Dpop.Verify.{Jose}
use onyxia_backend.Dpop.Verify.Accepted.{IsValidProof, verify_proof_iff}
use onyxia_backend.Oidc.Verify.{
  TokenVerifier, Auth, TokenInfo, Clock, apply_user_context, verify_token, verify_proof,
  check_binding, authorization, verify_request, same_jkt, finish, with_token,
}

module _ (v : TokenVerifier) (a : Auth) (j : Jose) (url_string : Url → String) (clock : Clock) where
  -- The ways in which a request may use a token: it is not bound to a key, or the request has the
  -- scheme DPoP and a valid proof, for its method, its URL and this token, by the key to which the
  -- token is bound.
  abbrev pub IsBound : Request → String → Bool → TokenInfo → JtiCache → Type 0
  IsBound r token_str is_dpop info cache =
      (info.cnf_jkt ≡ "")
      ⊎ ((is_dpop ≡ true)
          × (w : IsValidProof j (header_get r.header "Dpop") r.method
              (absolute_request_url url_string (some r)) token_str clock.now info.cnf_jkt)
          × (header_get r.header "Dpop" ≢ "")
          × ((seen w.claimed.jti clock.evicted_at clock.recorded_at cache).0 ≡ false))

  module _ (r : Request) (t : String) (is_dpop : Bool) (info : TokenInfo) (cache : JtiCache) where
    same_jkt-eq-none :
        (x : Result String × JtiCache) (jkt : String)
        → (same_jkt v a j url_string clock jkt x).0 ≡ none
        → x.0 ≡ ok jkt
    unfolding same_jkt
    same_jkt-eq-none (err e, c) jkt h = cc
    same_jkt-eq-none (ok k, c) jkt h = ground (arith, eq_iff k jkt)

    same_jkt-of-ok :
        (x : Result String × JtiCache) (jkt : String)
        → x.0 ≡ ok jkt
        → (same_jkt v a j url_string clock jkt x).0 ≡ none
    unfolding same_jkt
    same_jkt-of-ok (err e, c) jkt h = cc
    same_jkt-of-ok (ok k, c) jkt h = ground (arith, eq_iff k jkt)

    abbrev proof : String
    proof = header_get r.header "Dpop"

    abbrev url : String
    url = absolute_request_url url_string (some r)

    abbrev check : String → JtiCache → Bool × JtiCache
    check jti = seen jti clock.evicted_at clock.recorded_at

    abbrev checked : Result String × JtiCache
    checked = Verify.verify_proof j proof r.method url t clock.now (some check) cache

    bound_lem :
        info.cnf_jkt ≢ ""
        → (check_binding v a j url_string clock r t is_dpop info cache).0 ≡ none
        → (is_dpop ≡ true) × (proof ≢ "") × (checked.0 ≡ ok info.cnf_jkt)
    unfolding check_binding verify_proof
    bound_lem bound h = (
      ground (arith, eq_iff info.cnf_jkt ""),
      ground (arith, eq_iff info.cnf_jkt "", eq_iff proof ""),
      same_jkt-eq-none checked info.cnf_jkt (ground (arith, eq_iff info.cnf_jkt "")),
    )

    bound_back :
        info.cnf_jkt ≢ ""
        → is_dpop ≡ true
        → proof ≢ ""
        → checked.0 ≡ ok info.cnf_jkt
        → (check_binding v a j url_string clock r t is_dpop info cache).0 ≡ none
    unfolding check_binding verify_proof
    bound_back bound d given ok_jkt =
        ground (
          arith,
          eq_iff info.cnf_jkt "",
          eq_iff proof "",
          same_jkt-of-ok checked info.cnf_jkt ok_jkt,
        )

    unbound_lem :
        info.cnf_jkt ≡ "" → (check_binding v a j url_string clock r t is_dpop info cache).0 ≡ none
    unfolding check_binding
    unbound_lem e = ground (arith, eq_iff info.cnf_jkt "")

    accepted_iff : (checked.0 ≡ ok info.cnf_jkt) ↔ (
        (w : IsValidProof j proof r.method url t clock.now info.cnf_jkt) × ((check w.claimed.jti
            cache).0
          ≡ false))
    accepted_iff = verify_proof_iff j proof r.method url t clock.now info.cnf_jkt check cache

    pub check_binding_iff :
        ((check_binding v a j url_string clock r t is_dpop info cache).0 ≡ none)
        ↔ IsBound r t is_dpop info cache
    check_binding_iff = (
      λ h. elim (Bool-cases (info.cnf_jkt == "")) [
        | inl e ↦ inl ((eq_iff info.cnf_jkt "").0 e)
        | inr e ↦
            let (d, given, ok_jkt) = bound_lem (ground (arith, eq_iff info.cnf_jkt "")) h in
            let (w, fresh) = accepted_iff.0 ok_jkt in inr (d, w, given, fresh)
      ],
      elim [
        | inl e ↦ unbound_lem e
        | inr (d, w, given, fresh) ↦ elim (Bool-cases (info.cnf_jkt == "")) [
          | inl e ↦ unbound_lem ((eq_iff info.cnf_jkt "").0 e)
          | inr e ↦
              bound_back (ground (arith, eq_iff info.cnf_jkt "")) d given
                (accepted_iff.1 (w, fresh))
        ]
      ],
    )

  finish_lem :
      (ctx : Context) (info : TokenInfo) (b : Option Error × JtiCache)
      → (finish v a j url_string clock ctx info b).1 ≡ none
      → (b.0 ≡ none) × ((finish v a j url_string clock ctx info b).0 ≡ apply_user_context ctx info)
  unfolding finish
  finish_lem ctx info (some e, c) h = cc
  finish_lem ctx info (none, c) h = (refl, refl)

  with_token_lem :
      (ctx : Context) (r : Request) (t : String) (d : Bool) (x : Result TokenInfo)
      (cache : JtiCache)
      → (with_token v a j url_string clock ctx r t d x cache).1 ≡ none
      → (info : TokenInfo) × (x ≡ ok info)
        × IsBound r t d info cache
        × ((with_token v a j url_string clock ctx r t d x cache).0 ≡ apply_user_context ctx info)
  unfolding with_token
  with_token_lem ctx r t d (err e) cache h = cc
  with_token_lem ctx r t d (ok info) cache h =
      let (b, e) = finish_lem ctx info (check_binding v a j url_string clock r t d info cache) h in
      (info, refl, (check_binding_iff r t d info cache).0 b, e)

  accepted_context :
      (ctx : Context) (r : Request) (t : String) (d : Bool) (info : TokenInfo) (cache : JtiCache)
      → verify_token v a t ≡ ok info
      → IsBound r t d info cache
      → ((with_token v a j url_string clock ctx r t d (verify_token v a t) cache).0
          ≡ apply_user_context ctx info)
        × ((with_token v a j url_string clock ctx r t d (verify_token v a t) cache).1 ≡ none)
  unfolding with_token finish
  accepted_context ctx r t d info cache e bound =
      ground (arith, (check_binding_iff r t d info cache).1 bound)

  -- The request has an authorization whose token verifies and may be used by it, and `ctx'` is the
  -- context `ctx` with the user of the token.
  abbrev pub IsAuthenticated : Context → Request → JtiCache → Context → Type 0
  IsAuthenticated ctx r cache ctx' =
      (t : String) × (is_dpop : Bool) × (info : TokenInfo) × (authorization r ≡ some (t, is_dpop))
      × (verify_token v a t ≡ ok info)
      × IsBound r t is_dpop info cache
      × (ctx' ≡ apply_user_context ctx info)

  -- A request is accepted exactly when it has an authorization, its token verifies, and the token is
  -- not bound to a key or comes with the scheme DPoP and a fresh valid proof by that key for this
  -- method, URL and token. The context is then the given one with the user of the token.
  pub verify_request_iff :
      (ctx : Context) (r : Request) (cache : JtiCache) (ctx' : Context)
      → ((verify_request v a j url_string clock ctx r cache).0 ≡ ctx')
          × ((verify_request v a j url_string clock ctx r cache).1 ≡ none)
        ↔ IsAuthenticated ctx r cache ctx'
  unfolding verify_request
  verify_request_iff ctx r cache ctx' = (
    λ h. elim (Option-cases (authorization r)) [
      | inl e ↦ absurd (ground arith)
      | inr ((t, d), e) ↦
          let (info, verified, bound, same) =
            with_token_lem ctx r t d (verify_token v a t) cache (ground arith) in
          (t, d, info, e, verified, bound, ground arith)
    ],
    λ (t, d, info, auth, verified, bound, e).
        rw (auth, verify_request)
          (let (same, fine) = accepted_context ctx r t d info cache verified bound in
            (same ∙ sym e, fine)),
  )
