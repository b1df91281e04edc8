-- ===== src/Server/Body/Decoded.antt =====
-- Where a decoded request comes from.
use onyxia_backend.Common.{
  ℕ, zero, suc, String, ◌≡◌, inl, inr, refl, Option, none, some, Result, ok, err, arith, Bool-cases,
  Result-cases, ◌==◌,
}
use onyxia_backend.Dpop.Request.{header_get}
use onyxia_backend.Server.{Incoming, HttpLib}
use onyxia_backend.Server.Body.{
  Jx, decode_whole, decode_buffer, decode_read, decode_json, decode_request,
}

module _ {A : Type 0} (jx : Jx) (decode : jx.Decoder → Result (A × jx.Decoder)) where
  -- The value `a` was decoded from the text `buf`.
  abbrev pub IsDecoded : String → A → Type 0
  IsDecoded buf a = (d : jx.Decoder) × (decode (jx.decode_bytes buf) ≡ ok (a, d))

  whole-IsDecoded : (buf : String) (a : A) → decode_whole jx decode buf ≡ ok a → IsDecoded buf a
  unfolding decode_whole
  whole-IsDecoded buf a h = elim (Result-cases (decode (jx.decode_bytes buf))) [
    | inr (e, p) ↦ ground arith
    | inl ((b, d), p) ↦ elim (Result-cases (jx.skip d)) [
      | inl (d', q) ↦ ground arith
      | inr (e, q) ↦ elim (Bool-cases (jx.is_eof e)) [
        | inl t ↦ (d, ground arith)
        | inr t ↦ ground arith
      ]
    ]
  ]

  buffer-IsDecoded :
      (ct buf : String) (a : A) → decode_buffer jx decode ct buf ≡ inl a → IsDecoded buf a
  unfolding decode_buffer
  buffer-IsDecoded ct buf a h = elim (Result-cases (decode_whole jx decode buf)) [
    | inl (b, p) ↦ elim (Bool-cases (buf == "")) [
      | inl t ↦ ground arith
      | inr t ↦ whole-IsDecoded buf a (ground arith)
    ]
    | inr (e, p) ↦ elim (Bool-cases (buf == "")) [ inl t ↦ ground arith | inr t ↦ ground arith ]
  ]

  read-IsDecoded :
      (ct : String) (body : Result String) (a : A)
      → decode_read jx decode ct body ≡ inl a
      → (buf : String) × (body ≡ ok buf) × IsDecoded buf a
  unfolding decode_read
  read-IsDecoded ct (ok buf) a h = (buf, refl, buffer-IsDecoded ct buf a h)
  read-IsDecoded ct (err e) a h = ground arith

  json-IsDecoded :
      (ct : String) (r : Incoming) (length : Option ℕ) (a : A)
      → length ≡ r.content_length
      → decode_json jx decode ct r ≡ inl a
      → (buf : String) × (r.body ≡ ok buf) × IsDecoded buf a
  unfolding decode_json
  json-IsDecoded ct r none a l h = read-IsDecoded ct r.body a (ground arith)
  json-IsDecoded ct r (some zero) a l h = ground arith
  json-IsDecoded ct r (some (suc n)) a l h = read-IsDecoded ct r.body a (ground arith)

  -- A request that is decoded has a body that the decoder reads.
  pub decode_request-IsDecoded :
      (lib : HttpLib) (r : Incoming) (a : A)
      → decode_request jx decode lib r ≡ inl a
      → (buf : String) × (r.body ≡ ok buf) × IsDecoded buf a
  unfolding decode_request
  decode_request-IsDecoded lib r a h =
      elim (Result-cases (lib.parse_media_type (header_get r.header "Content-Type"))) [
        | inr (e, p) ↦ ground arith
        | inl (ct, p) ↦ elim (Bool-cases (ct == "application/json")) [
          | inl t ↦ json-IsDecoded ct r r.content_length a refl (ground arith)
          | inr t ↦ ground arith
        ]
      ]
