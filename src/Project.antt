-- ===== src/Project.antt =====
-- user.go: the projects and role bindings on the OpenShift server that belong to an organization
-- (CreateProject, CreateRoleBinding, UpdateRoleBinding, OpenshiftUpdateRole,
-- OpenshiftDeleteProject, splitLastSlash).
pub mod Keeps
pub mod Roles
pub mod Failures
use datafoundry_proxy.Base.{
  ℕ, Bool, true, false, not, ◌||◌, List, [], ◌∷◌, ◌++◌, Option, none, some, Str, codes, ◌==◌,
  if◌then◌else◌,
}
use datafoundry_proxy.Errors.{GoError, ldp_error_new, err_code_unknown_error}
use datafoundry_proxy.Types.{UserInfo, OrgMember, Orgnazition}
use datafoundry_proxy.Effect.{Result, ok, err, M, pure, fail, panic, run, attempt, ◌>>=◌}
use datafoundry_proxy.Json.Codec.{Value}
use datafoundry_proxy.Backend.{
  Backend, RoleBinding, Body, project_request, role_binding, HttpRequest, HttpResponse,
}
use datafoundry_proxy.Http.{http_get, http_delete, status_ok, status_created}

-- strings.LastIndex(url, "/"), and the text before it; the whole text if there is none.
last_slash : Str → Option Str
last_slash [] = none
last_slash (c ∷ s) = elim (last_slash s) [
  | some before ↦ some (c ∷ before)
  | none ↦ if c == b'/' then some [] else none
]

unfoldable pub split_last_slash : Str → Str
unfolding last_slash
split_last_slash url = elim (last_slash url) [ some before ↦ before | none ↦ url ]

abbrev pub made : HttpResponse → Bool
made resp = resp.status_code == status_ok || resp.status_code == status_created

module _ {W : Type 0} (B : Backend W) where
  -- `http.NewRequest` with its error ignored, and `client.Do`: a request that could not be built
  -- is nil, and setting its header panics.
  unfoldable pub send_request : Str → Str → Body → Str → M W HttpResponse
  send_request method url body token =
      if B.url_is_valid url
      then run
          (B.http_do (record { method = method; url = url; authorization = token; body = body }))
      else panic

  -- What is left of `CreateRoleBinding` after the request. The error of `client.Do` is assigned to
  -- a variable of the inner block, and the function returns nil.
  pub role_binding_sent : Result HttpResponse → M W (Unit {0})
  role_binding_sent (err e) = pure tt
  role_binding_sent (ok resp) =
      if made resp then pure tt else fail (ldp_error_new err_code_unknown_error)

  unfoldable pub create_role_binding : UserInfo → Orgnazition → Str → M W (Unit {0})
  unfolding role_binding_sent
  create_role_binding user org role = do
    let binding : RoleBinding = record {
      name = role ++ (codes "-" ++ user.username);
      role_ref = role;
      subjects = [];
      user_names = [];
      resource_version = [];
    }
    r ← attempt (
        send_request (codes "POST")
          (B.df_host ++ (codes "/oapi/v1/namespaces/" ++ (org.id ++ codes "/rolebindings")))
          (role_binding binding) user.token)
    role_binding_sent r

  -- The same for `CreateProject`.
  pub project_sent : UserInfo → Orgnazition → Result HttpResponse → M W (Unit {0})
  project_sent user org (err e) = pure tt
  project_sent user org (ok resp) =
      if made resp
      then (do
        _ ← create_role_binding user org (codes "admin")
        create_role_binding user org (codes "edit"))
      else fail (ldp_error_new err_code_unknown_error)

  unfoldable pub create_project : UserInfo → Orgnazition → M W (Unit {0})
  unfolding project_sent
  create_project user org = do
    r ← attempt (
        send_request (codes "POST") (B.df_host ++ codes "/oapi/v1/projectrequests")
          (project_request org.id org.name) user.token)
    project_sent user org r

  unfoldable pub openshift_delete_project : UserInfo → Orgnazition → M W (Unit {0})
  openshift_delete_project user org = do
    _ ← http_delete B (B.df_host ++ (codes "/oapi/v1/projects/" ++ org.id)) user.token
    pure tt

  pub role_sent : Result HttpResponse → M W (Unit {0})
  role_sent (err e) = fail e
  role_sent (ok resp) = if made resp then pure tt else fail (ldp_error_new err_code_unknown_error)

  -- An old role is replaced in place, under its version; else what is there is deleted and the
  -- role is posted to the collection.
  pub role_request : Str → RoleBinding → Str → Result Value → M W HttpResponse
  role_request url role token (ok b) =
      send_request (codes "PUT") url
        (role_binding (record role { resource_version = B.resource_version b })) token
  role_request url role token (err e) = do
    _ ← attempt (http_delete B url token)
    send_request (codes "POST") (split_last_slash url) (role_binding role) token

  -- The error that the function sends over its channel is the error of this action.
  unfoldable pub openshift_update_role : UserInfo → Str → RoleBinding → M W (Unit {0})
  unfolding role_request role_sent
  openshift_update_role user url role = do
    old ← attempt (http_get B url user.token)
    r ← attempt (role_request url role user.token old)
    role_sent r

-- The loop of `UpdateRoleBinding`: the names of the admins, or those of the others.
names_of : Bool → List OrgMember → List Str
names_of admins [] = []
names_of admins (member ∷ l) =
    if (if member.is_admin then admins else not admins)
    then member.member_name ∷ names_of admins l
    else names_of admins l

unfoldable pub role_of : Bool → Str → Orgnazition → RoleBinding
unfolding names_of
role_of admins role org = record {
  name = role ++ (codes "-" ++ org.create_by);
  role_ref = role;
  subjects = names_of admins org.member_list;
  user_names = names_of admins org.member_list;
  resource_version = [];
}

-- The later of two errors.
abbrev pub later_error : {W : Type 0} → Result (Unit {0}) → Result (Unit {0}) → M W (Unit {0})
later_error r (err e) = fail e
later_error (err e) (ok _) = fail e
later_error (ok _) (ok _) = pure tt

module _ {W : Type 0} (B : Backend W) where
  role_url : Orgnazition → Str → Str
  role_url org role =
      B.df_host
      ++ (codes "/oapi/v1/namespaces/"
          ++ (org.id ++ (codes "/rolebindings/" ++ (role ++ (codes "-" ++ org.create_by)))))

  unfoldable pub update_role_binding : UserInfo → Orgnazition → M W (Unit {0})
  unfolding role_url
  update_role_binding user org = do
    r ← attempt (
        openshift_update_role B user (role_url org (codes "admin"))
          (role_of true (codes "admin") org))
    r' ← attempt (
        openshift_update_role B user (role_url org (codes "edit"))
          (role_of false (codes "edit") org))
    later_error r r'
