-- ===== src/Services/Server/InstallBody/Filled.antt =====
-- What a decoded request to install has.
use mathlib.Core.Path.{subst}
use onyxia_backend.Common.{
  if◌then◌else◌, String, ◌⊎◌, ◌≡◌, inl, inr, refl, Bool, true, false, Option, some, List, [], ◌∷◌,
  Dict, Result, ok, err, arith, Result-cases, wrapping, ◌==◌,
}
use onyxia_backend.Server.{HttpLib, Incoming}
use onyxia_backend.Server.Body.{Jx, decode_opt_string, decode_opt_bool}
use onyxia_backend.Services.Server.InstallBody.{
  ServiceInstallRequest, Required, missed, unless, Partial, defaults, none_seen, set_field,
  decode_options, decode_install_field, validated, decode_install_request,
  decode_install_service_request,
}
use onyxia_backend.Server.Body.Decoded.{decode_request-IsDecoded}

-- The decoder only changes the value that it is given by the callback, which it calls again and again
-- until the end of the object or the first error.
pub record OnlyCallsBack (jx : Jx) : Type 1 where
  pub keeps :
      {S : Type 0} (f : String → S → jx.Decoder → Result (S × jx.Decoder)) (P : S → Type 0)
      → ((k : String) (s s' : S) (d d' : jx.Decoder) → P s → f k s d ≡ ok (s', d') → P s')
      → (s s' : S) (d d' : jx.Decoder) → P s
      → jx.obj_bytes f s d ≡ ok (s', d')
      → P s'

-- The four required fields are there.
pub record IsAllSeen (r : Required) : Type 0 where
  pub catalog_id_seen : r.catalog_id ≡ true
  pub package_name_seen : r.package_name ≡ true
  pub options_seen : r.options ≡ true
  pub name_seen : r.name ≡ true

nil-cases : {A : Type 0} (xs : List A) → (xs ≡ []) ⊎ ((y : A) × (ys : List A) × (xs ≡ y ∷ ys))
nil-cases [] = inl refl
nil-cases (y ∷ ys) = inr (y, ys, refl)

unless_nil :
    (b : Bool) (name : String) (names : List String)
    → unless b name names ≡ []
    → (b ≡ true) × (names ≡ [])
unless_nil true name names h = (refl, h)
unless_nil false name names h = ground arith

pub missed_lem : (r : Required) → missed r ≡ [] → IsAllSeen r
unfolding missed
missed_lem r h =
    let (c, h1) = unless_nil r.catalog_id "catalogId" _ h in
    let (p, h2) = unless_nil r.package_name "packageName" _ h1 in
    let (o, h3) = unless_nil r.options "options" _ h2 in
    let (n, h4) = unless_nil r.name "name" [] h3 in
    record { catalog_id_seen = c; package_name_seen = p; options_seen = o; name_seen = n }

-- What `x` results in, if it does, has the property `P`.
abbrev Gives : {S D : Type 0} → (S → Type 0) → Result (S × D) → Type 0
Gives {S = S} {D = D} P x = (s : S) (d : D) → x ≡ ok (s, d) → P s

if-Gives :
    {S D : Type 0} (P : S → Type 0) (b : Bool) (x y : Result (S × D))
    → Gives P x
    → Gives P y
    → Gives P (if b then x else y)
if-Gives P true x y p q = p
if-Gives P false x y p q = q

set_field-Gives :
    {A D S : Type 0} (P : S → Type 0) (set : A → S) (x : Result (A × D))
    → Gives (λ v. P (set v)) x
    → Gives P (set_field set x)
set_field-Gives P set (ok (v, d)) p s d' h = subst P (ground arith) (p v d refl)
set_field-Gives P set (err e) p s d' h = ground arith

wrapping-Gives :
    {D S : Type 0} (P : S → Type 0) (format : String) (args : List String) (x : Result (S × D))
    → Gives P x
    → Gives P (wrapping format args x)
wrapping-Gives P format args (ok (v, d)) p s d' h = p s d' h
wrapping-Gives P format args (err e) p s d' h = ground arith

any_Gives : {S D : Type 0} (P : S → Type 0) (x : Result (S × D)) → ((s : S) → P s) → Gives P x
any_Gives P x p s d h = p s

-- The sharing is set, and so are the options, once their field was met.
pub record IsFilled (p : Partial) : Type 0 where
  pub share_set : (b : Bool) × (p.0.share ≡ some b)
  pub options_set : p.1.options ≡ true → (m : Dict String) × (p.0.options ≡ some m)

abbrev HasValue : Option Bool → Type 0
HasValue v = (b : Bool) × (v ≡ some b)

kept :
    {A D : Type 0} (set : A → Partial) (x : Result (A × D))
    → ((v : A) → IsFilled (set v))
    → Gives IsFilled (set_field set x)
kept set x p = set_field-Gives IsFilled set x (any_Gives _ x p)

module _ (jx : Jx) where
  open jx use {Decoder}

  decode_opt_bool-HasValue : (d : Decoder) → Gives HasValue (decode_opt_bool jx d)
  unfolding decode_opt_bool
  decode_opt_bool-HasValue d v d' h = elim (Result-cases (jx.bool d)) [
    | inl ((b, d1), e) ↦ (b, ground arith)
    | inr (x, e) ↦ ground arith
  ]

  skipped-IsFilled :
      (s : ServiceInstallRequest) (seen : Required) (d : Decoder)
      → IsFilled (s, seen)
      → Gives IsFilled (elim (jx.skip d) [ ok d' ↦ ok ((s, seen), d') | err e ↦ err e ])
  skipped-IsFilled s seen d filled p d' h = elim (Result-cases (jx.skip d)) [
    | inl (d1, e) ↦ subst IsFilled (ground arith) filled
    | inr (x, e) ↦ ground arith
  ]

  share-IsFilled :
      (s : ServiceInstallRequest) (seen : Required) (d : Decoder)
      → IsFilled (s, seen)
      → Gives IsFilled (
          set_field
            (λ v. (record s { share = v }, seen))
            (wrapping "decode field \"share\": %w" [] (decode_opt_bool jx d)))
  share-IsFilled s seen d f =
      set_field-Gives IsFilled (λ v. (record s { share = v }, seen))
        (wrapping "decode field \"share\": %w" [] (decode_opt_bool jx d))
        (wrapping-Gives (λ v. IsFilled (record s { share = v }, seen)) "decode field \"share\": %w"
          [] (decode_opt_bool jx d)
          (λ v d' h. record {
            share_set = decode_opt_bool-HasValue d v d' h;
            options_set = f.options_set;
          }))

  decode_install_field-IsFilled :
      (k : String) (s : ServiceInstallRequest) (seen : Required) (d : Decoder)
      → IsFilled (s, seen)
      → Gives IsFilled (decode_install_field jx k (s, seen) d)
  unfolding decode_install_field
  decode_install_field-IsFilled k s seen d f =
      (if-Gives IsFilled (k == "catalogId") _ _
        (kept (λ v. (record s { catalog_id = v }, record seen { catalog_id = true }))
          (wrapping "decode field \"catalogId\": %w" [] (jx.str d))
          (λ v. record { share_set = f.share_set; options_set = f.options_set }))
        (if-Gives IsFilled (k == "packageName") _ _
          (kept (λ v. (record s { package_name = v }, record seen { package_name = true }))
            (wrapping "decode field \"packageName\": %w" [] (jx.str d))
            (λ v. record { share_set = f.share_set; options_set = f.options_set }))
          (if-Gives IsFilled (k == "packageVersion") _ _
            (kept (λ v. (record s { package_version = v }, seen))
              (wrapping "decode field \"packageVersion\": %w" [] (decode_opt_string jx d))
              (λ v. record { share_set = f.share_set; options_set = f.options_set }))
            (if-Gives IsFilled (k == "version") _ _
              (kept (λ v. (record s { version = v }, seen))
                (wrapping "decode field \"version\": %w" [] (decode_opt_string jx d))
                (λ v. record { share_set = f.share_set; options_set = f.options_set }))
              (if-Gives IsFilled (k == "options") _ _
                (kept (λ m. (record s { options = some m }, record seen { options = true }))
                  (wrapping "decode field \"options\": %w" [] (decode_options jx s.options d))
                  (λ m. record { share_set = f.share_set; options_set = λ t. (m, refl) }))
                (if-Gives IsFilled (k == "share") _ _ (share-IsFilled s seen d f) (
                  if-Gives IsFilled (k == "friendlyName") _ _
                    (kept (λ v. (record s { friendly_name = v }, seen))
                      (wrapping "decode field \"friendlyName\": %w" [] (decode_opt_string jx d))
                      (λ v. record { share_set = f.share_set; options_set = f.options_set }))
                    (if-Gives IsFilled (k == "name") _ _
                      (kept (λ v. (record s { name = v }, record seen { name = true }))
                        (wrapping "decode field \"name\": %w" [] (jx.str d))
                        (λ v. record { share_set = f.share_set; options_set = f.options_set }))
                      (skipped-IsFilled s seen d f)))))))))

module _ (lib : HttpLib) (jx : Jx) (calls : OnlyCallsBack jx) where
  open jx use {Decoder}

  validated-IsFilled :
      (x : Result (Partial × Decoder)) (s : ServiceInstallRequest) (d : Decoder)
      → Gives IsFilled x
      → validated jx lib x ≡ ok (s, d)
      → (seen : Required) × IsAllSeen seen × IsFilled (s, seen)
  unfolding validated
  validated-IsFilled (err e) s d p h = ground arith
  validated-IsFilled (ok ((s', seen), d')) s d p h = elim (nil-cases (missed seen)) [
    | inl none_missed ↦ (
      seen,
      missed_lem seen none_missed,
      subst (λ (x : ServiceInstallRequest). IsFilled (x, seen)) (ground arith)
          (p (s', seen) d' refl),
    )
    | inr (n, ns, some_missed) ↦ ground arith
  ]

  -- With a decoder that only calls back, a request to install that is decoded sets the sharing and
  -- the options, though it may name no field of the sharing, and the map of the options may be empty.
  pub decoded-IsFilled :
      (r : Incoming) (req : ServiceInstallRequest)
      → decode_install_service_request jx lib r ≡ inl req
      → ((b : Bool) × (req.share ≡ some b)) × ((m : Dict String) × (req.options ≡ some m))
  unfolding decode_install_service_request decode_install_request
  decoded-IsFilled r req h =
      let (buf, read, decoded) =
        decode_request-IsDecoded jx (λ d. decode_install_request jx lib d) lib r req h in
      let (seen, all_seen, filled) =
        validated-IsFilled _ req decoded.0
          (wrapping-Gives IsFilled _ _ _ (λ p d' g.
            calls.keeps (λ k p d. decode_install_field jx k p d) IsFilled
              (λ k p p' e e' f g. decode_install_field-IsFilled jx k p.0 p.1 e f p' e' g)
              (defaults, none_seen) p (jx.decode_bytes buf) d'
              (record { share_set = (false, refl); options_set = λ t. ground arith }) g))
          decoded.1 in
      (filled.share_set, filled.options_set all_seen.options_seen)
