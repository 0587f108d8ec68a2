-- ===== src/Tests/Profiles.antt =====
-- The profiles after the sample user has created an organization, and after it has left one.
use datafoundry_proxy.Base.{◌≡◌, refl, true, false, Str, codes, str_eq, if◌then◌else◌}
use datafoundry_proxy.Base.Int.{pos}
use datafoundry_proxy.Types.{UserInfo, Orgnazition, empty_org}
use datafoundry_proxy.Effect.{◌>>=◌}
use datafoundry_proxy.Effect.Success.{Gives}
use datafoundry_proxy.Json.{decode_slice, encode_items}
use datafoundry_proxy.Json.Codec.{
  read_org, unmarshal, decode_org, encode_org, decode_member, encode_member,
}
use datafoundry_proxy.Paths.{etcd_profile_path, etcd_org_path}
use datafoundry_proxy.Store.{get_value, set_value, user_update, org_get, org_create, org_update}
use datafoundry_proxy.Store.Success.{IsStoredOrg, IsStoredUser}
use datafoundry_proxy.Org.{is_last_admin, remove_from, remove_member, name_exists}
use datafoundry_proxy.Org.Members.{HasUniqueNames}
use datafoundry_proxy.Org.WellFormed.{joined_admin_named}
use datafoundry_proxy.Project.{send_request, create_role_binding, create_project}
use datafoundry_proxy.User.{org_id_in, check_if_org_exist_by_id}
use datafoundry_proxy.User.Lists.{UniqueIds}
use datafoundry_proxy.User.Organizations.{org_leave, create_org, generated_org_name, creator_member}
use datafoundry_proxy.User.Organizations.Create.{created_org}
use datafoundry_proxy.User.Organizations.Profiles.{create_org-counts, org_leave-unlists}
use datafoundry_proxy.Tests.World.{World, small_backend, world_stored, small_laws}
use datafoundry_proxy.Tests.Samples.{acme_id, acme, bob, world0, world0-OrgsAre}

abbrev labs : Orgnazition
labs = record empty_org { name = codes "labs" }

abbrev labs_created : Orgnazition
labs_created = created_org bob labs (codes "2016-08-01T00:00:00Z") (codes "aaaaaaaa")

abbrev world_labs : World
world_labs = (create_org small_backend bob labs world0).1

labs_given : Gives (create_org small_backend bob labs) world0 labs_created world_labs
unfolding create_org ◌>>=◌ generated_org_name create_project create_role_binding send_request
    org_create set_value user_update creator_member
labs_given = refl

create_org-counts_example :
    IsStoredOrg world_stored world_labs labs_created
    × (joined_admin_named (codes "bob") labs_created.member_list ≡ true)
    × (u : UserInfo) × IsStoredUser world_stored world_labs u
    × (u.username ≡ codes "bob")
    × (u.status.quota.org_used ≡ pos 1)
    × ((j : Str)
        → check_if_org_exist_by_id u j
          ≡ (if str_eq labs_created.id j then true else check_if_org_exist_by_id bob j))
create_org-counts_example =
    create_org-counts small_backend world_stored small_laws bob labs 0 world0 refl labs_given

abbrev world_quit : World
world_quit = (org_leave small_backend bob acme_id world0).1

bob_quits : Gives (org_leave small_backend bob acme_id) world0 tt world_quit
unfolding org_leave ◌>>=◌ org_get get_value read_org unmarshal decode_org encode_org is_last_admin
    remove_member remove_from org_update org_create set_value user_update etcd_profile_path
    etcd_org_path str_eq decode_slice encode_items decode_member encode_member
bob_quits = refl

names_differ : HasUniqueNames acme
unfolding name_exists str_eq
names_differ = (refl, (refl, tt))

ids_differ : UniqueIds bob.org_list
unfolding org_id_in
ids_differ = (refl, tt)

org_leave-unlists_example :
    (u : UserInfo) × IsStoredUser world_stored world_quit u
    × (u.username ≡ codes "bob")
    × ((j : Str)
        → check_if_org_exist_by_id u j
          ≡ (if str_eq acme_id j then false else check_if_org_exist_by_id bob j))
org_leave-unlists_example =
    org_leave-unlists small_backend world_stored small_laws bob acme_id world0
      (world0-OrgsAre HasUniqueNames names_differ) ids_differ bob_quits
