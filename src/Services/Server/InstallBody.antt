-- ===== src/Services/Server/InstallBody.antt =====
-- services/api/oas: the body of a request to install a service (oas_json_gen.go,
-- oas_defaults_gen.go and oas_request_decoders_gen.go)
pub mod Filled
use onyxia_backend.Common.{
  String, ◌⊎◌, Bool, true, false, Option, none, some, List, [], ◌∷◌, ◌==◌, Dict, insert, Error,
  Result, ok, err, wrapping, if◌then◌else◌,
}
use onyxia_backend.Server.{Incoming, DecodeError, HttpLib}
use onyxia_backend.Server.Body.{Jx, decode_opt_string, decode_opt_bool, decode_request}
use onyxia_backend.Services.Install.{InstallRequest}

-- `ServiceInstallRequest`; an option is its JSON text.
pub record ServiceInstallRequest : Type 0 where
  pub catalog_id : String
  pub package_name : String
  pub package_version : Option String
  pub version : Option String
  pub options : Option (Dict String)
  pub share : Option Bool
  pub friendly_name : Option String
  pub name : String

-- The zero value, after `setDefaults`
abbrev pub defaults : ServiceInstallRequest
defaults = record {
  catalog_id = "";
  package_name = "";
  package_version = none;
  version = none;
  options = none;
  share = some false;
  friendly_name = none;
  name = "";
}

-- The four bits of `requiredBitSet` that are in the mask
pub record Required : Type 0 where
  pub catalog_id : Bool
  pub package_name : Bool
  pub options : Bool
  pub name : Bool

abbrev pub none_seen : Required
none_seen = record { catalog_id = false; package_name = false; options = false; name = false }

-- The names of the bits of the mask that are not set, in the order of the bits
abbrev pub unless : Bool → String → List String → List String
unless true name names = names
unless false name names = name ∷ names

unfoldable pub missed : Required → List String
missed r =
    unless r.catalog_id "catalogId"
      (unless r.package_name "packageName" (unless r.options "options" (unless r.name "name" [])))

abbrev pub Partial : Type 0
Partial = ServiceInstallRequest × Required

-- The map of the options, as `init` leaves it
abbrev pub options_of : Option (Dict String) → Dict String
options_of none = []
options_of (some m) = m

-- What becomes of a value that was read
abbrev pub set_field : {A D S : Type 0} → (A → S) → Result (A × D) → Result (S × D)
set_field set (ok (v, d)) = ok (set v, d)
set_field set (err e) = err e

module _ (jx : Jx) where
  open jx use {Decoder}

  -- The callback of `ServiceInstallRequestOptions.Decode`
  unfoldable pub decode_option : String → Dict String → Decoder → Result (Dict String × Decoder)
  decode_option k m d =
      set_field (λ raw. insert k raw m) (wrapping "decode field %q: %w" (k ∷ []) (jx.raw_append d))

  -- `ServiceInstallRequestOptions.Decode`: the options of an earlier field are kept.
  unfoldable pub decode_options : Option (Dict String) → Decoder → Result (Dict String × Decoder)
  unfolding decode_option
  decode_options options d =
      wrapping "decode ServiceInstallRequestOptions: %w" []
        (jx.obj_bytes (λ k m d. decode_option k m d) (options_of options) d)

  -- The callback of `ServiceInstallRequest.Decode`
  unfoldable pub decode_install_field : String → Partial → Decoder → Result (Partial × Decoder)
  unfolding decode_opt_string decode_opt_bool decode_options
  decode_install_field k (s, seen) d =
      if k == "catalogId"
      then set_field (λ v. (record s { catalog_id = v }, record seen { catalog_id = true }))
          (wrapping "decode field \"catalogId\": %w" [] (jx.str d))
      else if k == "packageName"
      then set_field (λ v. (record s { package_name = v }, record seen { package_name = true }))
          (wrapping "decode field \"packageName\": %w" [] (jx.str d))
      else if k == "packageVersion"
      then set_field (λ v. (record s { package_version = v }, seen))
          (wrapping "decode field \"packageVersion\": %w" [] (decode_opt_string jx d))
      else if k == "version"
      then set_field (λ v. (record s { version = v }, seen))
          (wrapping "decode field \"version\": %w" [] (decode_opt_string jx d))
      else if k == "options"
      then set_field (λ m. (record s { options = some m }, record seen { options = true }))
          (wrapping "decode field \"options\": %w" [] (decode_options s.options d))
      else if k == "share"
      then set_field (λ v. (record s { share = v }, seen))
          (wrapping "decode field \"share\": %w" [] (decode_opt_bool jx d))
      else if k == "friendlyName"
      then set_field (λ v. (record s { friendly_name = v }, seen))
          (wrapping "decode field \"friendlyName\": %w" [] (decode_opt_string jx d))
      else if k == "name"
      then set_field (λ v. (record s { name = v }, record seen { name = true }))
          (wrapping "decode field \"name\": %w" [] (jx.str d))
      else elim (jx.skip d) [ ok d' ↦ ok ((s, seen), d') | err e ↦ err e ]

  -- The test of the required fields, which comes last
  unfoldable pub validated :
      HttpLib → Result (Partial × Decoder) → Result (ServiceInstallRequest × Decoder)
  unfolding missed
  validated lib (err e) = err e
  validated lib (ok ((s, seen), d)) = elim (missed seen) [
    | [] ↦ ok (s, d)
    | n ∷ ns ↦ err (lib.fields_required (n ∷ ns))
  ]

  -- `ServiceInstallRequest.Decode`
  unfoldable pub decode_install_request :
      HttpLib → Decoder → Result (ServiceInstallRequest × Decoder)
  unfolding validated decode_install_field
  decode_install_request lib d = validated lib (
      wrapping "decode ServiceInstallRequest: %w" []
        (jx.obj_bytes (λ k p d. decode_install_field k p d) (defaults, none_seen) d))

  -- `decodeInstallServiceRequest`
  unfoldable pub decode_install_service_request :
      HttpLib → Incoming → ServiceInstallRequest ⊎ DecodeError
  unfolding decode_request decode_install_request
  decode_install_service_request lib r = decode_request jx (λ d. decode_install_request lib d) lib r

-- What the controller reads of a request
abbrev pub install_request : ServiceInstallRequest → InstallRequest
install_request s = record {
  package_name = s.package_name;
  catalog_id = s.catalog_id;
  name = s.name;
  version = s.version;
  friendly_name = s.friendly_name;
  options = s.options;
}
