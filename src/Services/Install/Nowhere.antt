-- ===== src/Services/Install/Nowhere.antt =====
-- What the controller leaves out of a request to start a service.
use onyxia_backend.Common.{
  String, ◌≡◌, inl, inr, refl, false, Option, Result, arith, Option-cases, Result-cases,
}
use onyxia_backend.Common.Any.{Any}
use onyxia_backend.UserContext.{Context, get_user}
use onyxia_backend.Services.Install.{
  StartRequest, InstallRequest, InstallParams, start_request, values_of, for_user, install_service,
}

-- Two use cases that do the same for requests with an empty namespace and no sharing cannot be
-- told apart by any request to install: the controller sends no other, whatever the user, the
-- body and the parameters are.
pub install_service_nowhere :
    (unmarshal : String → Result Any) {S : Type 0}
    (start start' : StartRequest → S → Result (Unit {0}) × S)
    → ((req : StartRequest) (s : S)
        → req.namespace ≡ ""
        → req.share ≡ false
        → start req s ≡ start' req s)
    → (ctx : Context) (body : Option InstallRequest) (params : InstallParams) (s : S)
    → install_service unmarshal start ctx body params s
      ≡ install_service unmarshal start' ctx body params s
unfolding install_service for_user
install_service_nowhere unmarshal start start' same ctx body params s =
    elim (Option-cases (get_user ctx)) [
      | inl e ↦ ground arith
      | inr (u, e) ↦ elim (Result-cases (values_of unmarshal body)) [
        | inr (f, v) ↦ ground arith
        | inl ((req, values), v) ↦
            ground (arith, same (start_request u req params values) s refl refl)
      ]
    ]
