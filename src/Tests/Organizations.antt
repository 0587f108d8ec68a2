-- ===== src/Tests/Organizations.antt =====
-- The operations on organizations, run in the sample world.
use datafoundry_proxy.Base.{◌≡◌, refl, true, false, codes, str_eq, some, ◌↔◌}
use datafoundry_proxy.Types.{UserInfo, OrgMember, Orgnazition}
use datafoundry_proxy.Effect.{◌>>=◌}
use datafoundry_proxy.Effect.Success.{Gives}
use datafoundry_proxy.Json.{decode_slice, encode_items}
use datafoundry_proxy.Json.Codec.{
  decode_member, encode_member, decode_status, encode_status, decode_quota, encode_quota,
  decode_brief, encode_brief, json, read_user, read_org, encode_user, encode_org, decode_user,
  decode_org, unmarshal,
}
use datafoundry_proxy.Json.Codec.RoundTrip.{read_org-encode_org}
use datafoundry_proxy.Paths.{etcd_profile_path, etcd_org_path}
use datafoundry_proxy.Store.{
  get_value, set_value, user_get, user_update, org_get, org_create, org_update,
}
use datafoundry_proxy.Store.Success.{HasOrg, HasUser, IsStoredOrg}
use datafoundry_proxy.Org.{
  is_admin, is_last_admin, is_member_exist, remove_from, remove_member, name_exists,
}
use datafoundry_proxy.Org.Members.{without, HasUniqueNames, joined_admins}
use datafoundry_proxy.Org.Remove.{remove_from-without}
use datafoundry_proxy.Org.Admins.{is_last_admin_iff}
use datafoundry_proxy.Org.WellFormed.{joined_admin_named}
use datafoundry_proxy.User.Organizations.{org_leave, org_remove_member}
use datafoundry_proxy.User.Organizations.Success.{
  left_by, HasLeft, org_leave-Gives, org_remove_member-Gives,
}
use datafoundry_proxy.User.Organizations.LastAdmin.{org_remove_member-no_admin}
use datafoundry_proxy.Http.{http_get}
use datafoundry_proxy.Project.{send_request, openshift_update_role, update_role_binding}
use datafoundry_proxy.Tests.World.{World, small_backend, world_stored, small_laws}
use datafoundry_proxy.Tests.Samples.{
  acme_id, acme, alice, bob, joined_as, world0, world0-OrgsAre, invited_dave, world_of,
  world_of-OrgsAre, profile_named,
}

abbrev bob_member : OrgMember
bob_member = joined_as (codes "bob") false

unique_acme : HasUniqueNames acme
unfolding name_exists str_eq
unique_acme = (refl, (refl, tt))

abbrev world_left : World
world_left = (org_leave small_backend bob acme_id world0).1

bob_leaves : Gives (org_leave small_backend bob acme_id) world0 tt world_left
unfolding org_leave ◌>>=◌ org_get get_value read_org unmarshal decode_org encode_org is_last_admin
    remove_member remove_from org_update org_create set_value user_update etcd_profile_path
    etcd_org_path str_eq decode_slice encode_items decode_member encode_member
bob_leaves = refl

org_leave-Gives_example :
    (o : Orgnazition) × (is_last_admin o (codes "bob") ≡ false)
    × HasLeft world_stored world0 acme_id (codes "bob") bob o world_left
org_leave-Gives_example =
    org_leave-Gives small_backend world_stored small_laws world0
      (world0-OrgsAre HasUniqueNames unique_acme) bob acme_id bob_leaves

abbrev world_removed : World
world_removed = (org_remove_member small_backend alice bob_member acme_id world0).1

abbrev acme_removed : Orgnazition
acme_removed = left_by (codes "bob") acme

alice_removes_bob :
    Gives
      (org_remove_member small_backend alice bob_member acme_id)
      world0
      acme_removed
      world_removed
unfolding org_remove_member ◌>>=◌ org_get get_value read_org read_user unmarshal decode_org
    encode_org is_admin is_member_exist remove_member remove_from org_update org_create set_value
    user_update user_get etcd_profile_path etcd_org_path str_eq decode_slice encode_items
    decode_member encode_member update_role_binding openshift_update_role http_get send_request
    decode_user encode_user decode_status encode_status decode_quota encode_quota decode_brief
    encode_brief
alice_removes_bob = refl

org_remove_member-Gives_example :
    (o : Orgnazition) × (u : UserInfo) × (str_eq (codes "alice") (codes "bob") ≡ false)
    × (is_admin o (codes "alice") ≡ true)
    × (is_member_exist o bob_member ≡ true)
    × HasUser world_stored world0 (codes "bob") u
    × (acme_removed ≡ left_by (codes "bob") o)
    × HasLeft world_stored world0 acme_id (codes "bob") u o world_removed
org_remove_member-Gives_example =
    org_remove_member-Gives small_backend world_stored small_laws world0
      (world0-OrgsAre HasUniqueNames unique_acme) alice bob_member acme_id alice_removes_bob

remove_from-without_example :
    remove_from (codes "alice") acme.member_list ≡ some (without (codes "alice") acme.member_list)
remove_from-without_example = remove_from-without (codes "alice") acme.member_list unique_acme

is_last_admin_iff_example :
    (is_last_admin acme (codes "alice") ≡ true)
    ↔ ((is_admin acme (codes "alice") ≡ true) × (joined_admins acme.member_list ≡ 1))
is_last_admin_iff_example = is_last_admin_iff acme (codes "alice")

alice_governs : joined_admin_named (codes "alice") acme.member_list ≡ true
unfolding str_eq
alice_governs = refl

bob_removed : remove_from (codes "bob") acme.member_list ≡ some acme_removed.member_list
bob_removed = remove_from-without (codes "bob") acme.member_list unique_acme

unique_dave : HasUniqueNames invited_dave
unfolding name_exists str_eq
unique_dave = (refl, (refl, tt))

abbrev dave : UserInfo
dave = profile_named (codes "dave")

abbrev alice_member : OrgMember
alice_member = joined_as (codes "alice") false

abbrev alone : Orgnazition
alone = left_by (codes "alice") invited_dave

abbrev world_alone : World
world_alone = (org_remove_member small_backend dave alice_member acme_id (world_of invited_dave)).1

dave_removes_alice :
    Gives
      (org_remove_member small_backend dave alice_member acme_id)
      (world_of invited_dave)
      alone
      world_alone
unfolding org_remove_member ◌>>=◌ org_get get_value read_org read_user unmarshal decode_org
    encode_org is_admin is_member_exist remove_member remove_from org_update org_create set_value
    user_update user_get etcd_profile_path etcd_org_path str_eq decode_slice encode_items
    decode_member encode_member update_role_binding openshift_update_role http_get send_request
    decode_user encode_user decode_status encode_status decode_quota encode_quota decode_brief
    encode_brief
dave_removes_alice = refl

dave_stored : HasOrg world_stored (world_of invited_dave) acme_id invited_dave
unfolding etcd_org_path str_eq
dave_stored = (json (encode_org invited_dave), refl, read_org-encode_org invited_dave)

org_remove_member-no_admin_example :
    (joined_admins alone.member_list ≡ 0) × IsStoredOrg world_stored world_alone alone
unfolding str_eq
org_remove_member-no_admin_example =
    org_remove_member-no_admin small_backend world_stored small_laws (world_of invited_dave)
      (world_of-OrgsAre HasUniqueNames invited_dave unique_dave) dave alice_member acme_id
      invited_dave dave_stored refl refl dave_removes_alice
