-- ===== src/Tests/Routes.antt =====
-- Paths of the services API.
use onyxia_backend.Common.{◌≡◌, ◌↔◌, refl, some, none}
use onyxia_backend.Services.Router.{get_my_package, install_service, handle, not_allowed, route}
use onyxia_backend.Services.Router.Paths.{method_of, path_of, HasSegments, IsReached}
use onyxia_backend.Services.Router.Exact.{route_iff}

package_routed :
    route "GET" "/api/services/catalogs/ide/packages/jupyter"
    ≡ some (handle (get_my_package "ide" "jupyter"))
unfolding route
package_routed = refl

-- A release may be called as a static part of another path is.
catalogs_installed :
    route "PUT" "/api/services/catalogs/install" ≡ some (handle (install_service "catalogs"))
unfolding route
catalogs_installed = refl

-- The branches with a parameter behind their prefix lose the path.
events_not_found : route "PUT" "/api/services/events/install" ≡ none
unfolding route
events_not_found = refl

schemas_not_found : route "PUT" "/api/services/schemas/install" ≡ none
unfolding route
schemas_not_found = refl

-- A path that goes on behind the parameter is put back.
below_events : route "PUT" "/api/services/events/install/x" ≡ none
unfolding route
below_events = refl

wrong_method : route "GET" "/api/services/r/install" ≡ some (not_allowed "PUT")
unfolding route
wrong_method = refl

too_long : route "GET" "/api/services/catalogs/ide/packages/jupyter/x" ≡ none
unfolding route
too_long = refl

route_iff_example :
    (route "GET" "/api/services/catalogs/ide/packages/jupyter"
      ≡ some (handle (get_my_package "ide" "jupyter")))
    ↔ (("GET" ≡ method_of (get_my_package "ide" "jupyter"))
        × ("/api/services/catalogs/ide/packages/jupyter" ≡ path_of (get_my_package "ide" "jupyter"))
        × HasSegments (get_my_package "ide" "jupyter")
        × IsReached (get_my_package "ide" "jupyter"))
route_iff_example =
    route_iff "GET" "/api/services/catalogs/ide/packages/jupyter" (get_my_package "ide" "jupyter")
