-- ===== src/Services/Server/Statuses.antt =====
-- services/api/oas/oas_response_encoders_gen.go: the statuses of the responses for a schema and for a
-- release
use onyxia_backend.Common.{ℕ, String, Option, none, some, [], errorf, Result, ok, err, wrapping}
use onyxia_backend.Services.Install.{
  InstallRes, install_accepted, install_bad_request, install_forbidden, install_conflict,
  install_internal_server_error,
}
use onyxia_backend.Services.Controller.{
  SchemaRes, schema_ok, schema_bad_request, schema_internal_server_error,
}
use onyxia_backend.Server.{HttpLib}

-- `WatchReleaseRes` and `WatchResourcesRes`, with the headers of a stream of events
pub data WatchRes : Type 0 where
  watch_ok : (cache_control connection : Option String) → WatchRes
  watch_unauthorized watch_forbidden watch_not_found : WatchRes

-- `encodeGetPackageSchemaResponse`; the answer may be nil.
unfoldable pub encode_get_package_schema : Option SchemaRes → Result ℕ
encode_get_package_schema (some (schema_ok m)) = ok 200
encode_get_package_schema (some schema_bad_request) = ok 400
encode_get_package_schema (some (schema_internal_server_error e)) = ok 500
encode_get_package_schema none = err (errorf "unexpected response type: %T" [])

module _ (lib : HttpLib) where
  -- `encodeInstallServiceResponse`: the location of what is accepted is the empty text.
  unfoldable pub encode_install_service : InstallRes → Result ℕ
  encode_install_service install_accepted = elim (lib.encode_param "Location" (some "")) [
    | ok u ↦ ok 202
    | err e ↦ wrapping "encode Location header: %w" [] (err e)
  ]
  encode_install_service install_bad_request = ok 400
  encode_install_service install_forbidden = ok 403
  encode_install_service install_conflict = ok 409
  encode_install_service install_internal_server_error = ok 500

  encode_watch : Option WatchRes → Result ℕ
  encode_watch (some (watch_ok cache_control connection)) =
      elim (lib.encode_param "Cache-Control" cache_control) [
        | err e ↦ wrapping "encode Cache-Control header: %w" [] (err e)
        | ok u ↦ elim (lib.encode_param "Connection" connection) [
          | err e ↦ wrapping "encode Connection header: %w" [] (err e)
          | ok u ↦ ok 200
        ]
      ]
  encode_watch (some watch_unauthorized) = ok 401
  encode_watch (some watch_forbidden) = ok 403
  encode_watch (some watch_not_found) = ok 404
  encode_watch none = err (errorf "unexpected response type: %T" [])

  -- `encodeWatchReleaseResponse`; the answer may be nil.
  unfoldable pub encode_watch_release : Option WatchRes → Result ℕ
  unfolding encode_watch
  encode_watch_release res = encode_watch res

  -- `encodeWatchResourcesResponse`; the answer may be nil.
  unfoldable pub encode_watch_resources : Option WatchRes → Result ℕ
  unfolding encode_watch
  encode_watch_resources res = encode_watch res
