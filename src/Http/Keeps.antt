-- ===== src/Http/Keeps.antt =====
-- Requests leave the store alone.
use datafoundry_proxy.Base.{Option, Str}
use datafoundry_proxy.Types.{Orgnazition}
use datafoundry_proxy.Effect.{Result, ok, err, M, run}
use datafoundry_proxy.Effect.Ensures.{Ensures, Any, Keeping, Ensures-run, keeps_rules}
use datafoundry_proxy.Json.Codec.{Value}
use datafoundry_proxy.Backend.{Backend, Body, HttpRequest, HttpResponse}
use datafoundry_proxy.Backend.Laws.{Laws}
use datafoundry_proxy.Http.{
  get_response, http_get, action_response, action_result, http_action, http_delete,
}
use datafoundry_proxy.Store.Keeps.{OrgsAre, IsOfStore}

-- The action keeps `P` of all stored organizations.
abbrev pub Keeps :
    {W : Type 0} (B : Backend W) (stored : W → Str → Option Value)
    → Laws B stored
    → (Orgnazition → Type 0)
    → {A : Type 0} → M W A
    → Type 0
Keeps B stored L P m = Ensures (OrgsAre stored P) m Any

module _ {W : Type 0} (B : Backend W) (stored : W → Str → Option Value) (L : Laws B stored)
    (S : W → Type 0) (of_store : IsOfStore stored S) where
  pub Ensures-http : (r : HttpRequest) → Keeping S (run (B.http_do r))
  Ensures-http r =
      Ensures-run Any (B.http_do r) (λ w h. of_store w _ (λ k. L.http_keeps r k w) h)
        (λ w a h e. tt)

  Keeps-get_response : (url : Str) (resp : HttpResponse) → Keeping S (get_response B url resp)
  unfolding get_response
  Keeps-get_response url resp = search keeps_rules

  pub Keeps-http_get : (url token : Str) → Keeping S (http_get B url token)
  unfolding http_get
  Keeps-http_get url token = search (keeps_rules, Ensures-http, Keeps-get_response)

  Keeps-action_response :
      (url : Str) (resp : HttpResponse) (b : Result Value)
      → Keeping S (action_response B url resp b)
  unfolding action_response
  Keeps-action_response url resp (ok b) = search keeps_rules
  Keeps-action_response url resp (err e) = search keeps_rules

  Keeps-action_result : (url : Str) (r : Result HttpResponse) → Keeping S (action_result B url r)
  unfolding action_result
  Keeps-action_result url (ok resp) = Keeps-action_response url resp resp.body
  Keeps-action_result url (err e) = search keeps_rules

  pub Keeps-http_action :
      (method url : Str) (body : Body) (token : Str)
      → Keeping S (http_action B method url body token)
  unfolding http_action
  Keeps-http_action method url body token = search (keeps_rules, Ensures-http, Keeps-action_result)

  pub Keeps-http_delete : (url token : Str) → Keeping S (http_delete B url token)
  unfolding http_delete
  Keeps-http_delete url token = Keeps-http_action _ url _ token
