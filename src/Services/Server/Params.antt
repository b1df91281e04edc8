-- ===== src/Services/Server/Params.antt =====
-- services/api/oas/oas_parameters_gen.go: the parameters of the operations on a schema and on a
-- release
use onyxia_backend.Common.{
  String, ◌⊎◌, inl, inr, Bool, Option, none, some, [], Result, ok, err, wrapping, if◌then◌else◌,
}
use onyxia_backend.Dpop.Request.{Header}
use onyxia_backend.Services.Install.{InstallParams}
use onyxia_backend.Server.{ServerError, decode_params_error, HttpLib, decode_path_param}

-- The parameters of `getPackageSchema`
pub record SchemaParams : Type 0 where
  pub catalog_id : String
  pub package_name : String
  pub version : String

-- The parameters of `watchRelease` and of `watchResources`
pub record WatchParams : Type 0 where
  pub release_id : String
  pub last_event_id : Option String

abbrev pub named : {A : Type 0} → String → Result A → A ⊎ ServerError
named name (ok a) = inl a
named name (err e) = inr (decode_params_error name e)

module _ (lib : HttpLib) where
  -- `decodeGetPackageSchemaParams`
  unfoldable pub decode_get_package_schema_params :
      (escaped : Bool) → (catalog_id package_name version : String) → SchemaParams ⊎ ServerError
  unfolding decode_path_param
  decode_get_package_schema_params escaped catalog_id package_name version =
      elim (named "catalogId" (decode_path_param lib escaped catalog_id)) [
        | inr e ↦ inr e
        | inl c ↦ elim (named "packageName" (decode_path_param lib escaped package_name)) [
          | inr e ↦ inr e
          | inl p ↦ elim (named "version" (decode_path_param lib escaped version)) [
            | inr e ↦ inr e
            | inl v ↦ inl (record { catalog_id = c; package_name = p; version = v })
          ]
        ]
      ]

  -- The name of a release, which is checked
  unfoldable pub decode_release_id : (escaped : Bool) → (arg : String) → Result String
  unfolding decode_path_param
  decode_release_id escaped arg = elim (decode_path_param lib escaped arg) [
    | err e ↦ err e
    | ok s ↦ elim (lib.validate_string 1 "^[a-z0-9]([-a-z0-9]*[a-z0-9])?$" s) [
      | err e ↦ wrapping "string: %w" [] (err e)
      | ok u ↦ ok s
    ]
  ]

  -- A parameter that the header may have
  unfoldable pub decode_header_param : Header → (name : String) → Result (Option String)
  decode_header_param h name =
      let value = lib.decode_param h name in
      if lib.has_param h name then elim value [ ok v ↦ ok (some v) | err e ↦ err e ] else ok none

  -- `decodeInstallServiceParams`
  unfoldable pub decode_install_service_params :
      (escaped : Bool) → (release_id : String) → Header → InstallParams ⊎ ServerError
  unfolding decode_release_id decode_header_param
  decode_install_service_params escaped release_id h =
      elim (named "releaseId" (decode_release_id escaped release_id)) [
        | inr e ↦ inr e
        | inl i ↦ elim (named "X-Onyxia-Project" (decode_header_param h "X-Onyxia-Project")) [
          | inr e ↦ inr e
          | inl p ↦ inl (record { release_id = i; onyxia_project = p })
        ]
      ]

  -- `decodeWatchReleaseParams`
  unfoldable pub decode_watch_release_params :
      (escaped : Bool) → (release_id : String) → Header → WatchParams ⊎ ServerError
  unfolding decode_release_id decode_header_param
  decode_watch_release_params escaped release_id h =
      elim (named "releaseId" (decode_release_id escaped release_id)) [
        | inr e ↦ inr e
        | inl i ↦ elim (named "Last-Event-Id" (decode_header_param h "Last-Event-Id")) [
          | inr e ↦ inr e
          | inl l ↦ inl (record { release_id = i; last_event_id = l })
        ]
      ]

  -- `decodeWatchResourcesParams`
  unfoldable pub decode_watch_resources_params :
      (escaped : Bool) → (release_id : String) → Header → WatchParams ⊎ ServerError
  unfolding decode_release_id decode_header_param
  decode_watch_resources_params escaped release_id h =
      elim (named "releaseId" (decode_release_id escaped release_id)) [
        | inr e ↦ inr e
        | inl i ↦ elim (named "Last-Event-Id" (decode_header_param h "Last-Event-Id")) [
          | inr e ↦ inr e
          | inl l ↦ inl (record { release_id = i; last_event_id = l })
        ]
      ]
