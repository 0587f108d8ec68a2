-- ===== src/Project/Keeps.antt =====
-- Work on projects and role bindings leaves the store alone.
use datafoundry_proxy.Base.{Option, Str}
use datafoundry_proxy.Types.{UserInfo, Orgnazition}
use datafoundry_proxy.Effect.{Result, ok, err}
use datafoundry_proxy.Effect.Ensures.{Keeping, keeps_rules}
use datafoundry_proxy.Json.Codec.{Value}
use datafoundry_proxy.Backend.{Backend, RoleBinding, Body, HttpResponse}
use datafoundry_proxy.Backend.Laws.{Laws}
use datafoundry_proxy.Http.Keeps.{Ensures-http, Keeps-http_get, Keeps-http_delete}
use datafoundry_proxy.Store.Keeps.{IsOfStore}
use datafoundry_proxy.Project.{
  send_request, role_binding_sent, create_role_binding, project_sent, create_project,
  openshift_delete_project, role_sent, role_request, openshift_update_role, later_error,
  update_role_binding,
}

module _ {W : Type 0} (B : Backend W) (stored : W → Str → Option Value) (L : Laws B stored)
    (S : W → Type 0) (of_store : IsOfStore stored S) where
  Keeps-send_request :
      (method url : Str) (body : Body) (token : Str)
      → Keeping S (send_request B method url body token)
  unfolding send_request
  Keeps-send_request method url body token =
      search (keeps_rules, Ensures-http B stored L S of_store)

  Keeps-role_binding_sent : (r : Result HttpResponse) → Keeping S (role_binding_sent B r)
  unfolding role_binding_sent
  Keeps-role_binding_sent (ok resp) = search keeps_rules
  Keeps-role_binding_sent (err e) = search keeps_rules

  Keeps-create_role_binding :
      (user : UserInfo) (org : Orgnazition) (role : Str)
      → Keeping S (create_role_binding B user org role)
  unfolding create_role_binding
  Keeps-create_role_binding user org role =
      search (keeps_rules, Keeps-send_request, Keeps-role_binding_sent)

  Keeps-project_sent :
      (user : UserInfo) (org : Orgnazition) (r : Result HttpResponse)
      → Keeping S (project_sent B user org r)
  unfolding project_sent
  Keeps-project_sent user org (ok resp) = search (keeps_rules, Keeps-create_role_binding)
  Keeps-project_sent user org (err e) = search keeps_rules

  pub Keeps-create_project :
      (user : UserInfo) (org : Orgnazition) → Keeping S (create_project B user org)
  unfolding create_project
  Keeps-create_project user org = search (keeps_rules, Keeps-send_request, Keeps-project_sent)

  pub Keeps-openshift_delete_project :
      (user : UserInfo) (org : Orgnazition) → Keeping S (openshift_delete_project B user org)
  unfolding openshift_delete_project
  Keeps-openshift_delete_project user org =
      search (keeps_rules, Keeps-http_delete B stored L S of_store)

  Keeps-role_sent : (r : Result HttpResponse) → Keeping S (role_sent B r)
  unfolding role_sent
  Keeps-role_sent (ok resp) = search keeps_rules
  Keeps-role_sent (err e) = search keeps_rules

  Keeps-role_request :
      (url : Str) (role : RoleBinding) (token : Str) (r : Result Value)
      → Keeping S (role_request B url role token r)
  unfolding role_request
  Keeps-role_request url role token (ok b) = Keeps-send_request _ url _ token
  Keeps-role_request url role token (err e) =
      search (keeps_rules, Keeps-send_request, Keeps-http_delete B stored L S of_store)

  Keeps-openshift_update_role :
      (user : UserInfo) (url : Str) (role : RoleBinding)
      → Keeping S (openshift_update_role B user url role)
  unfolding openshift_update_role
  Keeps-openshift_update_role user url role =
      search
        (keeps_rules, Keeps-http_get B stored L S of_store, Keeps-role_request, Keeps-role_sent)

  Keeps-later_error : (r r' : Result (Unit {0})) → Keeping S (later_error r r')
  Keeps-later_error r (err e) = search keeps_rules
  Keeps-later_error (err e) (ok u) = search keeps_rules
  Keeps-later_error (ok t) (ok u) = search keeps_rules

  pub Keeps-update_role_binding :
      (user : UserInfo) (org : Orgnazition) → Keeping S (update_role_binding B user org)
  unfolding update_role_binding
  Keeps-update_role_binding user org =
      search (keeps_rules, Keeps-openshift_update_role, Keeps-later_error)
