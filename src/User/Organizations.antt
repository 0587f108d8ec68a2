-- ===== src/User/Organizations.antt =====
-- user.go: what a user does with organizations. `user` is the caller, with its profile and token.
pub mod Keeps
pub mod Success
pub mod Guards
pub mod LastAdmin
pub mod Create
pub mod Join
pub mod Profiles
use datafoundry_proxy.Base.{
  ℕ, zero, suc, Bool, true, false, not, List, [], ◌∷◌, ◌++◌, Option, none, some, Str, codes, str_eq,
  ltb, byte_at, if◌then◌else◌,
}
use datafoundry_proxy.Base.Int.{ℤ, pos, int64_inc, int64_dec, leb_ℤ}
use datafoundry_proxy.Errors.{
  GoError, ldp_error_new, err_code_permission_denied, err_code_org_not_empty,
  err_code_quota_exceeded, err_code_last_admin_restricted, err_code_user_invited,
  err_code_user_exists_in_org, err_code_user_not_registered, err_code_action_not_support,
  err_code_user_not_found,
}
use datafoundry_proxy.Types.{
  OrgBrief, UserQuota, UserStatus, UserInfo, OrgMember, Orgnazition, org_member_status_joined,
  org_member_status_invited,
}
use datafoundry_proxy.Effect.{
  Result, ok, err, M, pure, fail, panic, lift, call, attempt, guard, ◌>>=◌, ◌>>◌,
}
use datafoundry_proxy.Json.Codec.{Value, read_user}
use datafoundry_proxy.Backend.{Backend}
use datafoundry_proxy.Store.{
  user_get, user_update, if_exist, get_profile, org_get, org_create, org_update, org_delete,
}
use datafoundry_proxy.Org.{
  is_admin, is_last_admin, is_member_exist, joined_member_cnt, member_status, remove_member,
  member_joined, privileged_in,
}
use datafoundry_proxy.User.{delete_org_from_list, add_org_to_list}
use datafoundry_proxy.Project.{create_project, openshift_delete_project, update_role_binding}

-- The number of organizations that a user has created, changed.
abbrev pub with_org_used : (ℤ → ℤ) → UserInfo → UserInfo
with_org_used f u =
    let quota : UserQuota = record (u.status.quota) { org_used = f u.status.quota.org_used } in
    record u { status = record (u.status) { quota = quota } }

-- generatedOrgName: letters and digits drawn one by one.
abbrev name_chars : Str
name_chars = codes "abcdefghijklmnopqrstuvwxyz0123456789"

-- The error that `OrgInvite` gives for a name that is in the list already.
unfoldable pub already_member : Orgnazition → OrgMember → GoError
already_member org member =
    if str_eq (member_status org member) org_member_status_invited
    then ldp_error_new err_code_user_invited
    else ldp_error_new err_code_user_exists_in_org

-- The member as it is appended.
unfoldable pub invited : UserInfo → OrgMember → OrgMember
invited user member = record member {
  privileged_by = if member.is_admin then user.username else member.privileged_by;
  status = org_member_status_invited;
}

-- The creator as the first member of its organization.
unfoldable pub creator_member : UserInfo → Str → OrgMember
creator_member usr time = record {
  member_name = usr.username;
  is_admin = true;
  privileged_by = usr.username;
  joined_at = time;
  status = org_member_status_joined;
}

module _ {W : Type 0} (B : Backend W) where
  unfoldable pub generated_org_name : ℕ → M W Str
  generated_org_name zero = pure []
  generated_org_name (suc strlen) = do
    i ← call (B.rand_intn 36)
    rest ← generated_org_name strlen
    pure (byte_at name_chars i ∷ rest)

  -- `OrgLeave`
  unfoldable pub org_leave : UserInfo → Str → M W (Unit {0})
  org_leave user org_id = do
    org ← org_get B org_id
    guard (not (is_last_admin org user.username)) (ldp_error_new err_code_last_admin_restricted)
    org' ← remove_member org user.username
    _ ← org_update B org'
    user_update B (delete_org_from_list user org_id)

  -- `OrgJoin`: the profile is read again after the organization is written.
  unfoldable pub org_join : UserInfo → Str → M W (Unit {0})
  org_join user org_id = do
    org ← org_get B org_id
    org' ← member_joined B org user.username
    _ ← org_update B org'
    user' ← user_get B user.username
    user_update B (add_org_to_list user' org')

  -- The part of `OrgInvite` after the organization has been read.
  unfoldable pub invite_to : UserInfo → OrgMember → Orgnazition → M W Orgnazition
  unfolding already_member invited
  invite_to user member org = do
    guard (is_admin org user.username) (ldp_error_new err_code_permission_denied)
    guard (not (is_member_exist org member)) (already_member org member)
    registered ← if_exist B member.member_name
    guard registered (ldp_error_new err_code_user_not_registered)
    let org' : Orgnazition = record org {
      member_list = org.member_list ++ invited user member ∷ [];
    }
    _ ← update_role_binding B user org'
    org_update B org'

  -- If the organization cannot be read, `org` is nil and `UpdateRoleBinding` dereferences it.
  abbrev pub invite_result : UserInfo → OrgMember → Result Orgnazition → M W Orgnazition
  invite_result user member (ok org) = invite_to user member org
  invite_result user member (err e) = panic

  -- `OrgInvite`
  unfoldable pub org_invite : UserInfo → OrgMember → Str → M W Orgnazition
  org_invite user member org_id = do r ← attempt (org_get B org_id); invite_result user member r

  -- `OrgRemoveMember`
  unfoldable pub org_remove_member : UserInfo → OrgMember → Str → M W Orgnazition
  org_remove_member user member org_id = do
    guard (not (str_eq user.username member.member_name))
        (ldp_error_new err_code_action_not_support)
    org ← org_get B org_id
    guard (is_admin org user.username) (ldp_error_new err_code_permission_denied)
    guard (is_member_exist org member) (ldp_error_new err_code_user_not_found)
    org' ← remove_member org member.member_name
    _ ← org_update B org'
    _ ← update_role_binding B user org'
    minfo ← user_get B member.member_name
    _ ← user_update B (delete_org_from_list minfo org_id)
    pure org'

  -- The first match of the loop of `OrgPrivilege` returns from the function.
  abbrev pub privilege_found : UserInfo → Orgnazition → Option (List OrgMember) → M W Orgnazition
  privilege_found user org none = fail (ldp_error_new err_code_user_not_found)
  privilege_found user org (some l) = do
    let org' : Orgnazition = record org { member_list = l }
    _ ← update_role_binding B user org'
    org_update B org'

  -- `OrgPrivilege`
  unfoldable pub org_privilege : UserInfo → OrgMember → Str → M W Orgnazition
  org_privilege user member org_id = do
    org ← org_get B org_id
    guard (is_admin org user.username) (ldp_error_new err_code_permission_denied)
    guard (not (is_last_admin org member.member_name))
        (ldp_error_new err_code_last_admin_restricted)
    guard (is_member_exist org member) (ldp_error_new err_code_user_not_found)
    privilege_found user org
        (privileged_in member.member_name member.is_admin user.username org.member_list)

  -- `CreateOrg`: `org` is the request's body.
  unfoldable pub create_org : UserInfo → Orgnazition → M W Orgnazition
  unfolding creator_member
  create_org usr org = do
    guard (not (leb_ℤ (pos 9999999) usr.status.quota.org_used))
        (ldp_error_new err_code_quota_exceeded)
    time ← call B.now
    name ← generated_org_name 8
    let org' : Orgnazition = record org {
      id = usr.username ++ (codes "-org-" ++ name);
      create_by = usr.username;
      create_time = time;
      member_list = org.member_list ++ creator_member usr time ∷ [];
    }
    _ ← create_project B usr org'
    org'' ← org_create B (record org' { role_binding = true })
    let usr' : UserInfo = record usr {
      org_list =
          usr.org_list ++ record { org_id = org''.id; org_name = org''.name; org_alias = [] } ∷ [];
    }
    _ ← user_update B (with_org_used int64_inc usr')
    pure org''

  -- The profile of the creator in `DeleteOrg`. The code tests `err` where it means `errs`, so that
  -- after a failed read the assertion of nil's type panics.
  abbrev pub creator_profile : Result Value → M W Value
  creator_profile (ok v) = pure v
  creator_profile (err e) = panic

  -- `DeleteOrg`; the errors of the last two calls are not looked at.
  unfoldable pub delete_org : UserInfo → Str → M W Orgnazition
  delete_org user org_id = do
    org ← org_get B org_id
    guard (is_admin org user.username) (ldp_error_new err_code_permission_denied)
    guard (not (ltb 1 (joined_member_cnt org))) (ldp_error_new err_code_org_not_empty)
    _ ← openshift_delete_project B user org
    _ ← user_update B (delete_org_from_list user org_id)
    r ← attempt (get_profile B org.create_by)
    v ← creator_profile r
    createrinfo ← lift (read_user v)
    _ ← attempt (user_update B (with_org_used int64_dec createrinfo))
    _ ← attempt (org_delete B org.id)
    pure org

  -- One organization of `ListOrgs`: what cannot be read is left out.
  abbrev pub listed : Result Orgnazition → List Orgnazition → List Orgnazition
  listed (ok org) l = org ∷ l
  listed (err e) l = l

  pub list_from : List OrgBrief → M W (List Orgnazition)
  list_from [] = pure []
  list_from (b ∷ l) = do r ← attempt (org_get B b.org_id); rest ← list_from l; pure (listed r rest)

  -- `ListOrgs`
  unfoldable pub list_orgs : UserInfo → M W (List Orgnazition)
  unfolding list_from
  list_orgs user = list_from user.org_list
