-- ===== src/Server.antt =====
-- What the two generated servers share (onboarding/api/oas and services/api/oas): the request that
-- they are given, the errors that they pass to their error handler, the path that they route on and
-- the test of the security requirements.
pub mod Passed
pub mod Body
pub mod Security
use onyxia_backend.Common.{
  ℕ, String, ◌⊎◌, inl, inr, Bool, true, false, Option, none, some, List, [], ◌∷◌, ◌==◌, ◌&&◌, not,
  Error, Result, ok, err, if◌then◌else◌, ◌≡◌, refl, wrapping, arith,
}
use onyxia_backend.Common.Text.{after_prefix}
use onyxia_backend.UserContext.{Context}
use onyxia_backend.Dpop.Request.{Url, Header, Request}

-- `http.Request` as the server of net/http gives it to a handler: its URL is there. `raw_path` is
-- `URL.RawPath`, a `content_length` of `none` stands for an unknown length, and `body` is what
-- reading the whole body gives.
pub record Incoming : Type 0 where
  pub method : String
  pub url : Url
  pub raw_path : String
  pub header : Header
  pub host : String
  pub tls : Bool
  pub content_length : Option ℕ
  pub body : Result String

abbrev pub request_of : Incoming → Request
request_of r = record {
  method = r.method;
  url = some r.url;
  header = r.header;
  host = r.host;
  tls = r.tls;
}

-- Why a body is not decoded
pub data DecodeError : Type 0 where
  media_type : Error → DecodeError
  body_required : DecodeError
  unreadable : Error → DecodeError
  decode_body_error : (content_type body : String) → Error → DecodeError
  invalid_content_type : String → DecodeError

-- The errors that are passed to the error handler; an error of a controller is passed as it is.
pub data ServerError : Type 0 where
  security_error : (security : String) → Error → ServerError
  security_requirement_is_not_satisfied : ServerError
  decode_params_error : (name : String) → Error → ServerError
  decode_request_error : DecodeError → ServerError
  controller_error : Error → ServerError
  encode_error : Error → ServerError

-- What becomes of a request: an answer by `NotFound` or `MethodNotAllowed`, by the error handler, the
-- status of a response that is encoded, or nothing that the handler has written
pub data Reply : Type 0 where
  not_found : Reply
  not_allowed : (allowed_methods : String) → Reply
  failed : ServerError → Reply
  written : (status : ℕ) → Reply
  unwritten : Reply

-- What the code takes from net/url, mime and ogen; `is_skip` is `errors.Is` with
-- `ErrSkipServerSecurity` and `is_internal` with `ErrInternalServerErrorResponse`; `decode_value`
-- reads a path parameter in the simple style, `has_param` and `decode_param` are those of the
-- decoder of headers, `encode_param` is that of their encoder, and `validate_string` checks a text
-- against a least length and a regular expression; `fields_required` is the error for the missing
-- fields of an object, and `not_implemented` is `ErrNotImplemented`.
pub record HttpLib : Type 0 where
  pub normalize_escaped_path : String → Option String
  pub parse_media_type : String → Result String
  pub is_skip : Error → Bool
  pub path_unescape : String → Result String
  pub decode_value : String → Result String
  pub field_required : Error
  pub validate_string : (min_length : ℕ) → (regex : String) → String → Result (Unit {0})
  pub has_param : Header → (name : String) → Bool
  pub decode_param : Header → (name : String) → Result String
  pub encode_param : (name : String) → Option String → Result (Unit {0})
  pub is_internal : Error → Bool
  pub fields_required : (names : List String) → Error
  pub not_implemented : Error

-- The path that `ServeHTTP` routes on
unfoldable pub elem_of : HttpLib → Incoming → String
elem_of lib r =
    if r.raw_path == "" then r.url.path else elim (lib.normalize_escaped_path r.raw_path) [
      | some normalized ↦ normalized
      | none ↦ r.url.path
    ]

-- `cutPrefix`
unfoldable pub cut_prefix : (prefix path : String) → Option String
unfolding after_prefix
cut_prefix prefix path =
    let rest = after_prefix prefix path in if prefix == "" then some path else rest

-- The loop over the alternative requirements; each has or has not the bit of the scheme `oidc`.
unfoldable pub is_satisfied : (oidc : Bool) → List Bool → Bool
is_satisfied oidc [] = false
is_satisfied oidc (mask ∷ masks) =
    let rest = is_satisfied oidc masks in if mask && not oidc then rest else true

-- `securityOidc`, over the handler of the security scheme
module _ {C : Type 0} (lib : HttpLib)
    (handle_oidc : Context → Request → C → Context × Option Error × C) where
  unfoldable pub security_oidc : Context → Incoming → C → Result (Option Context) × C
  security_oidc ctx r c =
      let (rctx, e, c') = handle_oidc ctx (request_of r) c in
      elim e [
        | none ↦ (ok (some rctx), c')
        | some x ↦ if lib.is_skip x then (ok none, c') else (err x, c')
      ]

  -- The security block of a handler: the context to go on with
  unfoldable pub secured :
      (requirements : List Bool) → Context → Incoming → C → (Context ⊎ ServerError) × C
  unfolding security_oidc is_satisfied
  secured requirements ctx r c =
      let (found, c') = security_oidc ctx r c in
      elim found [
        | err e ↦ (inr (security_error "Oidc" e), c')
        | ok (some sctx) ↦
            if is_satisfied true requirements
            then (inl sctx, c')
            else (inr security_requirement_is_not_satisfied, c')
        | ok none ↦
            if is_satisfied false requirements
            then (inl ctx, c')
            else (inr security_requirement_is_not_satisfied, c')
      ]

  -- A handler: its security block, and `next`, which is what follows
  unfoldable pub guarded :
      {S : Type 0}
      → (requirements : List Bool) → (next : Context → S → Reply × S) → Context
      → Incoming
      → C
      → S
      → Reply × C × S
  unfolding secured
  guarded requirements next ctx r c s =
      let (allowed, c') = secured requirements ctx r c in
      elim allowed [
        | inr e ↦ (failed e, c', s)
        | inl sctx ↦ let (reply, s') = next sctx s in (reply, c', s')
      ]

-- The end of a handler: an error of the controller goes to the error handler, whatever the response
-- is; else the status of the response is written.
unfoldable pub respond : {A S : Type 0} → (encode : A → ℕ) → (A × Option Error) × S → Reply × S
respond encode ((res, some e), s) = (failed (controller_error e), s)
respond encode ((res, none), s) = (written (encode res), s)

pub respond-state :
    {A S : Type 0} (encode : A → ℕ) (o : (A × Option Error) × S) → (respond encode o).1 ≡ o.1
unfolding respond
respond-state encode ((res, some e), s) = refl
respond-state encode ((res, none), s) = refl

pub respond-written :
    {A S : Type 0} (encode : A → ℕ) (o : (A × Option Error) × S) (status : ℕ)
    → (respond encode o).0 ≡ written status
    → (o.0.1 ≡ none) × (status ≡ encode o.0.0)
unfolding respond
respond-written encode ((res, some e), s) status h = ground arith
respond-written encode ((res, none), s) status h = (refl, ground arith)

-- The same where the response may have no encoding
unfoldable pub respond_if :
    {A S : Type 0} → HttpLib → (encode : A → Result ℕ) → (A × Option Error) × S → Reply × S
respond_if lib encode ((res, some e), s) = (failed (controller_error e), s)
respond_if lib encode ((res, none), s) = elim (encode res) [
  | ok status ↦ (written status, s)
  | err e ↦ (if lib.is_internal e then unwritten else failed (encode_error e), s)
]

pub respond_if-state :
    {A S : Type 0} (lib : HttpLib) (encode : A → Result ℕ) (o : (A × Option Error) × S)
    → (respond_if lib encode o).1 ≡ o.1
unfolding respond_if
respond_if-state lib encode ((res, some e), s) = refl
respond_if-state lib encode ((res, none), s) = ground arith

pub respond_if-written :
    {A S : Type 0} (lib : HttpLib) (encode : A → Result ℕ) (o : (A × Option Error) × S) (status : ℕ)
    → (respond_if lib encode o).0 ≡ written status
    → (o.0.1 ≡ none) × (encode o.0.0 ≡ ok status)
unfolding respond_if
respond_if-written lib encode ((res, some e), s) status h = ground arith
respond_if-written lib encode ((res, none), s) status h = (refl, ground arith)

-- One parameter of `decode…Params`
unfoldable pub decode_path_param : HttpLib → (escaped : Bool) → (arg : String) → Result String
decode_path_param lib escaped arg =
    let unescaped = wrapping "unescape path: %w" [] (lib.path_unescape arg) in
    elim (if escaped then unescaped else ok arg) [
      | err e ↦ err e
      | ok param ↦
          let value = lib.decode_value param in
          if param == "" then err lib.field_required else value
    ]
