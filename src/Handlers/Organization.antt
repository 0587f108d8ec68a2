-- ===== src/Handlers/Organization.antt =====
-- organization.go: the handlers of organizations.
pub mod Keeps
use datafoundry_proxy.Base.{
  ℕ, Bool, true, false, not, Str, codes, str_eq, ltb, byte_length, if◌then◌else◌,
}
use datafoundry_proxy.Errors.{
  GoError, ldp_error_new, err_code_org_not_found, err_code_org_name_too_short, err_code_org_exist,
  err_code_action_not_support,
}
use datafoundry_proxy.Types.{UserInfo, OrgMember, Orgnazition, empty_member, empty_org}
use datafoundry_proxy.Effect.{M, pure, lift}
use datafoundry_proxy.Json.Codec.{decode_member, decode_org}
use datafoundry_proxy.Backend.{Backend}
use datafoundry_proxy.Response.{Response, org, orgs}
use datafoundry_proxy.Store.{org_get}
use datafoundry_proxy.Auth.{Request, parse_request_body, check_token}
use datafoundry_proxy.User.{check_if_org_exist, check_if_org_exist_by_id}
use datafoundry_proxy.User.Organizations.{
  org_leave, org_join, org_invite, org_remove_member, org_privilege, create_org, delete_org,
  list_orgs,
}
use datafoundry_proxy.Handlers.{resp_error, unless, answer, answer_nil, or_respond, with_user}

-- `user.token, _ = checkToken(r)`
abbrev pub with_token : Request → UserInfo → UserInfo
with_token r user = record user { token = (check_token r).0 }

module _ {W : Type 0} (B : Backend W) where
  unfoldable pub delete_organization : Request → M W Response
  delete_organization r = with_user B r (λ userinfo.
      unless B (check_if_org_exist_by_id userinfo r.org) (ldp_error_new err_code_org_not_found) 404
        (answer B (delete_org B (with_token r userinfo) r.org) org))

  unfoldable pub join_organization : Request → M W Response
  join_organization r = with_user B r (λ user. answer_nil B (org_join B user r.org))

  unfoldable pub leave_organization : Request → M W Response
  leave_organization r = with_user B r (λ user.
      unless B (check_if_org_exist_by_id user r.org) (ldp_error_new err_code_org_not_found) 404
        (answer_nil B (org_leave B user r.org)))

  unfoldable pub list_organizations : Request → M W Response
  list_organizations r = with_user B r (λ userinfo. answer B (list_orgs B userinfo) orgs)

  unfoldable pub create_organization : Request → M W Response
  create_organization r = with_user B r (λ userinfo.
      or_respond B (lift (parse_request_body decode_org empty_org r)) 400 (λ o.
        unless B (not (ltb (byte_length o.name) 2)) (ldp_error_new err_code_org_name_too_short) 400
          (unless B (not (check_if_org_exist userinfo o.name)) (ldp_error_new err_code_org_exist)
            400 (answer B (create_org B (with_token r userinfo) o) org))))

  unfoldable pub get_organization : Request → M W Response
  get_organization r = with_user B r (λ userinfo.
      unless B (check_if_org_exist_by_id userinfo r.org) (ldp_error_new err_code_org_not_found) 404
        (answer B (org_get B r.org) org))

  -- The second switch of `ManageOrganization`. The message that an invitation sends, in a
  -- goroutine, touches nothing of this model.
  unfoldable pub managed : UserInfo → Request → OrgMember → M W Response
  managed user r member =
      if str_eq r.action (codes "remove")
      then answer B (org_remove_member B user member r.org) org
      else if str_eq r.action (codes "invite")
      then answer B (org_invite B user member r.org) org
      else if str_eq r.action (codes "privileged")
      then answer B (org_privilege B user member r.org) org
      else pure (resp_error B (ldp_error_new err_code_action_not_support) 400)

  unfoldable pub manage_organization : Request → M W Response
  manage_organization r = with_user B r (λ user.
      if str_eq r.action (codes "accept")
      then join_organization r
      else if str_eq r.action (codes "leave")
      then leave_organization r
      else unless B (check_if_org_exist_by_id user r.org) (ldp_error_new err_code_org_not_found) 404
          (or_respond B (lift (parse_request_body decode_member empty_member r)) 400
            (λ member. managed (with_token r user) r member)))
