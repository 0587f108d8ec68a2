-- ===== src/Tests/Accounts.antt =====
-- Accounts in the sample world.
use datafoundry_proxy.Base.{
  ◌≡◌, refl, ◌↔◌, ◌≤◌, true, false, [], ◌∷◌, ◌++◌, codes, str_eq, none, some, byte_length,
}
use datafoundry_proxy.Errors.{plain, check_if_exist_ldap, check_if_not_found}
use datafoundry_proxy.Types.{UserInfo, empty_user}
use datafoundry_proxy.Effect.{ok, err, returns, fails, ◌>>=◌}
use datafoundry_proxy.Effect.Success.{Gives}
use datafoundry_proxy.Json.{obj, field, str, end}
use datafoundry_proxy.Json.Codec.{decode_user}
use datafoundry_proxy.Paths.{etcd_profile_path, etcd_org_path}
use datafoundry_proxy.Backend.{Backend, project_request}
use datafoundry_proxy.Store.{get_value, set_value, if_exist, user_update}
use datafoundry_proxy.Auth.{Request, parse_request_body}
use datafoundry_proxy.Validation.{
  validate_user_name, validate_email, minimal_name_requirements, validate_namespace_name,
  is_dns1123_label,
}
use datafoundry_proxy.Project.{send_request}
use datafoundry_proxy.User.Account.{
  validate, create, add_to_ldap, after_ldap, add_to_etcd, fresh_profile,
}
use datafoundry_proxy.User.Account.Outcomes.{validate_iff, IsCreatedFrom, create-Gives}
use datafoundry_proxy.Routes.{post_signup, get_orgs, serve}
use datafoundry_proxy.Routes.Failures.{sign_up-ends_server}
use datafoundry_proxy.Tests.World.{World, small_backend, world_stored, small_laws}
use datafoundry_proxy.Tests.Samples.{acme, alice, world0, request}

abbrev erin : UserInfo
erin = record empty_user {
  username = codes "erin";
  password = codes "secret-12";
  email = codes "e@ex.com";
}

validate_iff_example : (validate erin ≡ none) ↔ (
    (validate_user_name (codes "erin") ≡ none)
    × (validate_email (codes "e@ex.com") ≡ true)
    × ((8 ≤ byte_length (codes "secret-12")) × (byte_length (codes "secret-12") ≤ 12)))
validate_iff_example = validate_iff erin

abbrev erin_stored : UserInfo
erin_stored = fresh_profile (codes "2016-08-01T00:00:00Z") erin

abbrev world_created : World
world_created = (create small_backend erin world0).1

erin_created : Gives (create small_backend erin) world0 erin_stored world_created
unfolding create after_ldap add_to_etcd add_to_ldap fresh_profile ◌>>=◌ set_value str_eq
    etcd_profile_path
erin_created = refl

create-Gives_example :
    IsCreatedFrom small_backend world_stored small_laws erin world0 erin_stored world_created
create-Gives_example = create-Gives small_backend world_stored small_laws erin world0 erin_created

-- A world whose LDAP server cannot be reached.
abbrev no_ldap : Backend World
no_ldap = record small_backend { ldap_dial = λ w. (err (plain (codes "refused")), w) }

abbrev erin_signs_up : Request
erin_signs_up = request (codes "POST") [] [] (
    ok (
      obj (
        field (codes "username") (str (codes "erin")) (
          field (codes "password") (str (codes "secret-12"))
            (field (codes "email") (str (codes "e@ex.com")) end)))))

erin_parsed : parse_request_body decode_user empty_user erin_signs_up ≡ ok erin
unfolding parse_request_body decode_user
erin_parsed = refl

erin_valid : validate erin ≡ none
unfolding validate validate_user_name validate_email minimal_name_requirements
    validate_namespace_name is_dns1123_label
erin_valid = refl

erin_new : if_exist no_ldap (codes "erin") world0 ≡ (returns false, world0)
unfolding if_exist get_value ◌>>=◌ check_if_not_found etcd_profile_path etcd_org_path str_eq
erin_new = refl

dial_failed : add_to_ldap no_ldap erin world0 ≡ (fails (plain (codes "refused")), world0)
unfolding add_to_ldap ◌>>=◌
dial_failed = refl

not_existing : check_if_exist_ldap (some (plain (codes "refused"))) ≡ false
unfolding check_if_exist_ldap
not_existing = refl

sign_up-ends_server_example :
    serve no_ldap ((post_signup, erin_signs_up) ∷ (get_orgs, erin_signs_up) ∷ []) world0
    ≡ ([], world0)
sign_up-ends_server_example =
    sign_up-ends_server no_ldap erin_signs_up erin (plain (codes "refused"))
      ((get_orgs, erin_signs_up) ∷ []) world0 world0 world0 erin_parsed erin_valid erin_new
      dial_failed not_existing

abbrev world_overwritten : World
world_overwritten = (user_update small_backend erin world0).1

erin_is_not_bob : str_eq (codes "erin") (codes "bob") ≡ false
unfolding str_eq
erin_is_not_bob = refl

erin_written : user_update small_backend erin world0 ≡ (returns tt, world_overwritten)
unfolding user_update set_value
erin_written = refl

-- A world whose OpenShift server cannot be reached.
abbrev no_openshift : Backend World
no_openshift = record small_backend { http_do = λ r w. (err (plain (codes "timeout")), w) }

unreachable :
    send_request no_openshift
      (codes "POST")
      (no_openshift.df_host ++ codes "/oapi/v1/projectrequests")
      (project_request acme.id acme.name)
      alice.token
      world0
    ≡ (fails (plain (codes "timeout")), world0)
unfolding send_request
unreachable = refl
