-- ===== src/Tests/Answers.antt =====
-- Requests to the server of the services API.
use onyxia_backend.Common.{
  ◌≡◌, ◌⊎◌, inl, refl, true, false, none, [], ◌∷◌, Error, ok, err, String, ℕ, is, err_not_found,
}
use onyxia_backend.Common.Text.{equal_fold, cut}
use onyxia_backend.UserContext.{Context}
use onyxia_backend.Dpop.Jti.{new_jti_cache, seen}
use onyxia_backend.Dpop.Verify
use onyxia_backend.Dpop.Verify.{verified_claims, bound_key}
use onyxia_backend.Oidc.Claims.{validate_audience, extract_claim}
use onyxia_backend.Oidc.Verify.{
  authorization, token_info, verify_token, check_binding, verify_request, apply_user_context,
}
use onyxia_backend.Oidc.Verify.Binding.{IsAuthenticated}
use onyxia_backend.Services.Domain.{PackageRef}
use onyxia_backend.Services.Catalogs
use onyxia_backend.Services.Controller.{get_my_catalogs, get_my_package}
use onyxia_backend.Server.{security_error, failed, written, request_of}
use onyxia_backend.Services.Server.{
  decode_get_my_package_params, handle_get_my_catalogs_request, handle_get_my_package_request,
}
use onyxia_backend.Services.Server.Answers.{
  handle_oidc, missing, anonymous_refused, package_written,
}
use onyxia_backend.Tests.Fixtures.{url_string, verifier, auth, clock}
use onyxia_backend.Tests.Services.{whole, latest, empty_repository}
use onyxia_backend.Tests.Server.{lib, post, post_jose, stranger}

anonymous : authorization (request_of stranger) ≡ none
unfolding authorization
anonymous = refl

anonymous_refused_example :
    handle_get_my_catalogs_request lib
      (handle_oidc lib verifier auth post_jose url_string clock whole empty_repository
        (latest ∷ []))
      (get_my_catalogs whole empty_repository (latest ∷ []))
      []
      stranger
      new_jti_cache
      0
    ≡ (
      failed (
          security_error "Oidc" (
            missing lib verifier auth post_jose url_string clock whole empty_repository
              (latest ∷ []))),
      new_jti_cache,
      0,
    )
anonymous_refused_example =
    anonymous_refused lib verifier auth post_jose url_string clock whole empty_repository
      (latest ∷ []) [] stranger new_jti_cache 0 anonymous refl

package_missing :
    (handle_get_my_package_request lib
      (handle_oidc lib verifier auth post_jose url_string clock whole empty_repository
        (latest ∷ []))
      (get_my_package whole empty_repository (latest ∷ []))
      false
      "ide"
      "p"
      []
      post
      new_jti_cache
      0).0
    ≡ written 404
unfolding handle_get_my_package_request verify_request verify_token validate_audience extract_claim
    token_info check_binding Verify.verify_proof verified_claims bound_key seen equal_fold cut
    apply_user_context get_my_package
package_missing = refl

package_written_example :
    (sctx : Context) × (i : String) × (n : String) × IsAuthenticated verifier auth post_jose
      url_string clock []
      (request_of post)
      new_jti_cache
      sctx
    × (decode_get_my_package_params lib false "ide" "p" ≡ inl (i, n))
    × (((◌≡◌ {A = ℕ} 404 200)
          × (ref : PackageRef) × ((Catalogs.get_package empty_repository (latest ∷ []) i n 0).0
              ≡ ok ref))
        ⊎ ((◌≡◌ {A = ℕ} 404 404)
            × (e : Error) × ((Catalogs.get_package empty_repository (latest ∷ []) i n 0).0 ≡ err e)
            × (is e err_not_found ≡ true)))
package_written_example =
    package_written lib verifier auth post_jose url_string clock whole empty_repository
      (latest ∷ []) [] post new_jti_cache 0 false "ide" "p" 404 package_missing
