-- ===== src/User/Organizations/LastAdmin.antt =====
-- The check that `OrgLeave` and `OrgPrivilege` make, that an admin stays, and `OrgRemoveMember`, which
-- does not make it.
use datafoundry_proxy.Base.{◌≡◌, sym, ap, ◌∙◌, subst, true, Option, Str, arith}
use datafoundry_proxy.Types.{UserInfo, OrgMember, Orgnazition}
use datafoundry_proxy.Effect.Success.{Gives}
use datafoundry_proxy.Json.Codec.{Value}
use datafoundry_proxy.Backend.{Backend}
use datafoundry_proxy.Backend.Laws.{Laws}
use datafoundry_proxy.Store.Keeps.{OrgsAre}
use datafoundry_proxy.Store.Success.{HasOrg, HasOrg-same, IsStoredOrg}
use datafoundry_proxy.Org.Members.{HasUniqueNames, joined_admins}
use datafoundry_proxy.Org.WellFormed.{joined_admin_named, joined_admins-without_named}
use datafoundry_proxy.User.Organizations.{org_remove_member}
use datafoundry_proxy.User.Organizations.Success.{left_by, org_remove_member-Gives}

-- An admin of the organization (who may be only invited) can remove the only admin that has joined:
-- if the removal returns, the organization is stored with no joined admin at all.
pub org_remove_member-no_admin :
    {W : Type 0} (B : Backend W) (stored : W → Str → Option Value) (L : Laws B stored) (w : W)
    (unique : OrgsAre stored HasUniqueNames w) (user : UserInfo) (member : OrgMember) (id : Str)
    (o : Orgnazition) {o' : Orgnazition} {w' : W}
    → HasOrg stored w id o
    → joined_admins o.member_list ≡ 1
    → joined_admin_named member.member_name o.member_list ≡ true
    → Gives (org_remove_member B user member id) w o' w'
    → (joined_admins o'.member_list ≡ 0) × IsStoredOrg stored w' o'
org_remove_member-no_admin B stored L w unique user member id o {o'} {w'} has one admin e =
    let (p, u, other, is_an_admin, exists, has_user, o'_is, (has', (left, user_left, others))) =
      org_remove_member-Gives B stored L w unique user member id e in
    let same : p ≡ o = HasOrg-same stored w id p o has' has in
    let (v, there, parsed) = has in
    let fewer =
      joined_admins-without_named member.member_name o.member_list (unique id v o there parsed)
        admin in
    let zero : joined_admins (left_by member.member_name o).member_list ≡ 0 =
      omega (arith, one, fewer) in
    (
      ap (λ x. joined_admins x.member_list) (o'_is ∙ ap (left_by member.member_name) same) ∙ zero,
      subst (λ x. IsStoredOrg stored w' x) (sym o'_is) left,
    )
