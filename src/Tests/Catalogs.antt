-- ===== src/Tests/Catalogs.antt =====
-- The answers of the controller of catalogs at concrete inputs.
use onyxia_backend.Common.{◌≡◌, refl, some, List, [], ◌∷◌, map}
use onyxia_backend.Common.Any.{str}
use onyxia_backend.UserContext.{Context, user, get_user}
use onyxia_backend.Services.Catalogs.{catalog_of}
use onyxia_backend.Services.Catalogs.Listed.{passing}
use onyxia_backend.Services.Controller.{ApiCatalog, catalogs_ok, api_catalog, get_my_catalogs}
use onyxia_backend.Services.Controller.Shown.{visible_to, get_my_catalogs_lem}
use onyxia_backend.Tests.Services.{whole, latest, restricted, empty_repository}

abbrev ctx : Context
ctx =
    user (
      some (record {
        username = "a";
        groups = [];
        roles = [];
        attributes = some (("group", str "ml") ∷ []);
      }))
    ∷ []

abbrev answered : List ApiCatalog
answered = api_catalog (catalog_of latest []) ∷ api_catalog (catalog_of restricted []) ∷ []

both_shown :
    (get_my_catalogs whole empty_repository (latest ∷ restricted ∷ []) ctx 0).0.0
    ≡ catalogs_ok answered
unfolding get_my_catalogs
both_shown = refl

get_my_catalogs_lem_example :
    map (λ c. c.id) answered
    ≡ map (λ c. c.id) (passing (visible_to whole ctx (get_user ctx)) (latest ∷ restricted ∷ []))
get_my_catalogs_lem_example =
    get_my_catalogs_lem whole empty_repository (latest ∷ restricted ∷ []) ctx 0 answered both_shown
