-- ===== src/Server/Body.antt =====
-- The bodies of requests in the generated servers: oas_request_decoders_gen.go, whose functions
-- differ only in the type that is decoded, and the optional values of oas_json_gen.go
pub mod Decoded
use onyxia_backend.Common.{
  ℕ, zero, String, ◌⊎◌, inl, inr, Bool, Option, none, some, [], ◌∷◌, ◌==◌, Error, errorf, Result,
  ok, err, if◌then◌else◌,
}
use onyxia_backend.Dpop.Request.{header_get}
use onyxia_backend.Server.{
  Incoming, DecodeError, media_type, body_required, unreadable, decode_body_error,
  invalid_content_type, HttpLib,
}

-- What the code takes from the decoder jx: `obj_bytes` calls back for each field of an object, with
-- the value that the callbacks change.
pub record Jx : Type 1 where
  pub Decoder : Type 0
  pub decode_bytes : String → Decoder
  pub obj_bytes :
      {S : Type 0}
      → (String → S → Decoder → Result (S × Decoder))
      → S
      → Decoder
      → Result (S × Decoder)
  pub str : Decoder → Result (String × Decoder)
  pub bool : Decoder → Result (Bool × Decoder)
  pub raw_append : Decoder → Result (String × Decoder)
  pub skip : Decoder → Result Decoder
  pub is_eof : Error → Bool

module _ (jx : Jx) where
  open jx use {Decoder}

  -- `OptString.Decode` and `OptBool.Decode`; the value is set before it is read, but an error drops
  -- the whole request.
  unfoldable pub decode_opt_string : Decoder → Result (Option String × Decoder)
  decode_opt_string d = elim (jx.str d) [ ok (v, d') ↦ ok (some v, d') | err e ↦ err e ]

  unfoldable pub decode_opt_bool : Decoder → Result (Option Bool × Decoder)
  decode_opt_bool d = elim (jx.bool d) [ ok (v, d') ↦ ok (some v, d') | err e ↦ err e ]

module _ {A : Type 0} (jx : Jx) (decode : jx.Decoder → Result (A × jx.Decoder)) where
  -- The closure around `request.Decode`: nothing may follow the value.
  unfoldable pub decode_whole : (buf : String) → Result A
  decode_whole buf = elim (decode (jx.decode_bytes buf)) [
    | err e ↦ err e
    | ok (request, d) ↦ elim (jx.skip d) [
      | ok d' ↦ err (errorf "unexpected trailing data" [])
      | err e ↦ if jx.is_eof e then ok request else err (errorf "unexpected trailing data" [])
    ]
  ]

  decode_buffer : (content_type buf : String) → A ⊎ DecodeError
  unfolding decode_whole
  decode_buffer content_type buf =
      let decoded = decode_whole buf in
      if buf == "" then inr body_required else elim decoded [
        | ok request ↦ inl request
        | err e ↦ inr (decode_body_error content_type buf e)
      ]

  decode_read : (content_type : String) → Result String → A ⊎ DecodeError
  unfolding decode_buffer
  decode_read content_type (ok buf) = decode_buffer content_type buf
  decode_read content_type (err e) = inr (unreadable e)

  decode_json : (content_type : String) → Incoming → A ⊎ DecodeError
  unfolding decode_read
  decode_json content_type r =
      let read = decode_read content_type r.body in
      elim r.content_length [ some zero ↦ inr body_required | _ ↦ read ]

  -- `decodeOnboardRequest` and `decodeInstallServiceRequest`
  unfoldable pub decode_request : HttpLib → Incoming → A ⊎ DecodeError
  unfolding decode_json header_get
  decode_request lib r = elim (lib.parse_media_type (header_get r.header "Content-Type")) [
    | err e ↦ inr (media_type e)
    | ok ct ↦
        let decoded = decode_json ct r in
        if ct == "application/json" then decoded else inr (invalid_content_type ct)
  ]
