-- ===== src/Dpop/Verify/Accepted.antt =====
-- What it means that a proof is accepted.
use onyxia_backend.Common.{
  ℕ, String, ◌≡◌, ◌≢◌, ◌↔◌, refl, Bool, true, false, some, List, [], ◌∷◌, Result, ok, err,
  >>=-eq-ok, arith, eq_iff, ap, sym, ◌∙◌, guard, not, ◌==◌, ◌>>◌,
}
use onyxia_backend.Common.Text.{equal_fold}
use onyxia_backend.Dpop.Verify.{
  Jose, TokenHeader, ProofClaims, typ_text, signed_token, checked_claims, verified_claims,
  bound_key, verify_proof, check_replay, signing_key, match_htu, check_issued_at, failure,
}
use onyxia_backend.Dpop.Verify.Conditions.{
  IsFresh, check_issued_at-IsFresh, IsFresh-check_issued_at, IsTarget, match_htu-IsTarget,
  IsTarget-match_htu,
}

module _ (j : Jose) where
  open j use {Token, Key, parse_signed, headers, is_public, claims, thumbprint, access_token_hash}

  -- The proof is a token signed with an allowed algorithm; its first header embeds a public key and
  -- has the type of a DPoP proof.
  pub record IsSigned (proof : String) (token : Token) (header : TokenHeader Key) (key : Key)
      : Type 0 where
    pub others : List (TokenHeader Key)
    pub parsed : parse_signed proof ≡ ok token
    pub first_header : headers token ≡ header ∷ others
    pub embedded : header.jwk ≡ some key
    pub typ : equal_fold (typ_text header.typ) "dpop+jwt" ≡ true
    pub public_key : is_public key ≡ true

  -- The claims verify under the key, are bound to the method and the target, are fresh, and carry an
  -- identifier.
  pub record IsChecked (method url : String) (now : ℕ) (token : Token) (key : Key) (c : ProofClaims)
      : Type 0 where
    pub signed : claims token key ≡ ok c
    pub method_bound : equal_fold c.htm method ≡ true
    pub target : IsTarget j c.htu url
    pub fresh : IsFresh c.iat now
    pub identified : c.jti ≢ ""

  signing_key-eq-ok :
      (hs : List (TokenHeader Key)) {h : TokenHeader Key} {key : Key}
      → signing_key j hs ≡ ok (h, key)
      → (rest : List (TokenHeader Key)) × (hs ≡ h ∷ rest) × (h.jwk ≡ some key)
  unfolding signing_key
  signing_key-eq-ok [] e = cc
  signing_key-eq-ok (x ∷ xs) e = (xs, ground arith, ground arith)

  signed_token-IsSigned :
      (proof : String) (t : Token) (h : TokenHeader Key) (k : Key)
      → signed_token j proof ≡ ok (t, h, k)
      → IsSigned proof t h k
  unfolding signed_token
  signed_token-IsSigned proof t h k e =
      let (t', pt, r) = >>=-eq-ok (parse_signed proof) _ e in
      let (hk, ph, q) = >>=-eq-ok (signing_key j (headers t')) _ r in
      let (rest, pr, pj) = signing_key-eq-ok (headers t') ph in
      record {
        others = rest;
        parsed = ground arith;
        first_header = ground arith;
        embedded = ground arith;
        typ = ground arith;
        public_key = ground arith;
      }

  IsSigned-signed_token :
      (proof : String) (t : Token) (h : TokenHeader Key) (k : Key)
      → IsSigned proof t h k
      → signed_token j proof ≡ ok (t, h, k)
  unfolding signed_token signing_key
  IsSigned-signed_token proof t h k v = ground arith

  after_claims :
      (method url : String) (now : ℕ) (c' c : ProofClaims)
      → (do
        guard (equal_fold c'.htm method) (failure "dpop htm mismatch")
        match_htu j c'.htu url
        check_issued_at c'.iat now
        guard (not (c'.jti == "")) (failure "dpop jti missing")
        ok c')
        ≡ ok c
      → (c' ≡ c) × (check_issued_at c'.iat now ≡ ok tt)
  after_claims method url now c' c e = ground arith

  checked_claims-IsChecked :
      (method url : String) (now : ℕ) (t : Token) (k : Key) (c : ProofClaims)
      → checked_claims j method url now t k ≡ ok c
      → IsChecked method url now t k c
  unfolding checked_claims
  checked_claims-IsChecked method url now t k c e =
      let (c', pc, r) = >>=-eq-ok (claims t k) _ e in
      let (same, fresh) = after_claims method url now c' c r in
      record {
        signed = ground arith;
        method_bound = ground arith;
        target = match_htu-IsTarget j c.htu url (ground arith);
        fresh =
            check_issued_at-IsFresh c.iat now
              (ap (λ x. check_issued_at x.iat now) (sym same) ∙ fresh);
        identified = ground (arith, eq_iff c.jti "");
      }

  IsChecked-checked_claims :
      (method url : String) (now : ℕ) (t : Token) (k : Key) (c : ProofClaims)
      → IsChecked method url now t k c
      → checked_claims j method url now t k ≡ ok c
  unfolding checked_claims
  IsChecked-checked_claims method url now t k c v = ground (
    arith,
    IsTarget-match_htu j c.htu url v.target,
    IsFresh-check_issued_at c.iat now v.fresh,
    eq_iff c.jti "",
  )

  -- All that `VerifyProof` asks of a proof, the replay check apart.
  pub record IsValidProof (proof method url access_token : String) (now : ℕ) (jkt : String)
      : Type 0 where
    pub token : Token
    pub header : TokenHeader Key
    pub key : Key
    pub claimed : ProofClaims
    pub signed : IsSigned proof token header key
    pub checked : IsChecked method url now token key claimed
    pub ath_given : claimed.ath ≢ ""
    pub ath_bound : claimed.ath ≡ access_token_hash access_token
    pub thumb : thumbprint key ≡ ok jkt

  module _ (proof method url access_token : String) (now : ℕ) (jkt : String) where
    pub verified_claims-inv :
        (k : Key) (c : ProofClaims)
        → verified_claims j proof method url now ≡ ok (k, c)
        → (t : Token) × (h : TokenHeader Key) × IsSigned proof t h k
          × IsChecked method url now t k c
    unfolding verified_claims
    verified_claims-inv k c e =
        let (x, px, r) = >>=-eq-ok (signed_token j proof) _ e in
        let (c', pc, q) = >>=-eq-ok (checked_claims j method url now x.0 x.2) _ r in
        (
          x.0,
          x.1,
          signed_token-IsSigned proof x.0 x.1 k (ground arith),
          checked_claims-IsChecked method url now x.0 k c (ground arith),
        )

    module _ {S : Type 0} (check : String → S → Bool × S) (s : S) where
      accepted_lem :
          (r : Result (Key × ProofClaims))
          → verified_claims j proof method url now ≡ r
          → (check_replay j (some check) access_token r s).0 ≡ ok jkt
          → (v : IsValidProof proof method url access_token now jkt) × ((check v.claimed.jti s).0
              ≡ false)
      unfolding check_replay bound_key
      accepted_lem (err e) p h = cc
      accepted_lem (ok (k, c)) p h =
          let (t, hd, sg, ch) = verified_claims-inv k c p in
          (
            record {
              token = t;
              header = hd;
              key = k;
              claimed = c;
              signed = sg;
              checked = ch;
              ath_given = ground (arith, eq_iff c.ath "");
              ath_bound = ground (arith, eq_iff c.ath (access_token_hash access_token));
              thumb = ground arith;
            },
            ground arith,
          )

      valid_lem :
          (v : IsValidProof proof method url access_token now jkt)
          → (check v.claimed.jti s).0 ≡ false
          → (check_replay j (some check) access_token (verified_claims j proof method url now) s).0
            ≡ ok jkt
      unfolding check_replay bound_key verified_claims
      valid_lem v fresh = ground (
        arith,
        IsSigned-signed_token proof v.token v.header v.key v.signed,
        IsChecked-checked_claims method url now v.token v.key v.claimed v.checked,
        eq_iff v.claimed.ath "",
        eq_iff v.claimed.ath (access_token_hash access_token),
      )

      -- An accepted proof has called the replay check once, with its identifier.
      pub accepted_state :
          (v : IsValidProof proof method url access_token now jkt)
          → (verify_proof j proof method url access_token now (some check) s).1
            ≡ (check v.claimed.jti s).1
      unfolding verify_proof check_replay verified_claims
      accepted_state v = ground (
        arith,
        IsSigned-signed_token proof v.token v.header v.key v.signed,
        IsChecked-checked_claims method url now v.token v.key v.claimed v.checked,
      )

      -- With a replay check, a proof is accepted with the thumbprint `jkt` exactly when it is signed
      -- by an embedded public key whose thumbprint is `jkt`, has the type, the method, the target
      -- and the age that it must have, carries an identifier and the hash of the access token, and
      -- the check did not know its identifier.
      pub verify_proof_iff :
          ((verify_proof j proof method url access_token now (some check) s).0 ≡ ok jkt) ↔ (
            (v : IsValidProof proof method url access_token now jkt) × ((check v.claimed.jti s).0
              ≡ false))
      unfolding verify_proof
      verify_proof_iff = (
        λ h. accepted_lem (verified_claims j proof method url now) refl h,
        λ v. valid_lem v.0 v.1,
      )
