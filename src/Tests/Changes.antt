-- ===== src/Tests/Changes.antt =====
-- Joining, creating and activating in the sample world, and a list with a name that occurs twice.
use datafoundry_proxy.Base.{
  ◌≡◌, refl, true, false, List, [], ◌∷◌, ◌++◌, none, Str, codes, str_eq, length,
}
use datafoundry_proxy.Base.Int.{pos, leb_ℤ}
use datafoundry_proxy.Types.{UserInfo, OrgMember, Orgnazition, empty_org}
use datafoundry_proxy.Effect.{◌>>=◌}
use datafoundry_proxy.Effect.Success.{Gives}
use datafoundry_proxy.Json.{decode_slice, encode_items}
use datafoundry_proxy.Json.Codec.{
  json, read_user, read_org, encode_user, encode_org, decode_user, decode_org, unmarshal,
  decode_member, encode_member, decode_status, encode_status, decode_quota, encode_quota,
  decode_brief, encode_brief,
}
use datafoundry_proxy.Json.Codec.RoundTrip.{read_org-encode_org}
use datafoundry_proxy.Paths.{etcd_profile_path, etcd_org_path, etcd_verify_path}
use datafoundry_proxy.Store.{
  get_value, set_value, delete, user_get, user_update, org_get, org_create, org_update,
}
use datafoundry_proxy.Store.Success.{HasOrg, HasUser, IsStoredOrg, IsStoredUser, ChangesOnly}
use datafoundry_proxy.Org.{name_exists, remove_from, member_joined}
use datafoundry_proxy.Org.Effects.{AreStamped}
use datafoundry_proxy.Org.Duplicates.{remove_from-none}
use datafoundry_proxy.User.{add_org_to_list, check_if_org_exist_by_id}
use datafoundry_proxy.Project.{send_request, create_role_binding, create_project}
use datafoundry_proxy.User.Organizations.{org_join, create_org, generated_org_name, creator_member}
use datafoundry_proxy.User.Organizations.Join.{org_join-Gives, org_join-stranger}
use datafoundry_proxy.User.Organizations.Create.{created_org, creating_user, create_org-Gives}
use datafoundry_proxy.User.Account.{active_account}
use datafoundry_proxy.User.Account.Activate.{activated, active_account-Gives}
use datafoundry_proxy.Tests.World.{World, small_backend, world_stored, small_laws}
use datafoundry_proxy.Tests.Samples.{acme_id, acme, bob, carol, joined_as, world0}

abbrev world_joined : World
world_joined = (org_join small_backend bob acme_id world0).1

bob_joins : Gives (org_join small_backend bob acme_id) world0 tt world_joined
unfolding org_join ◌>>=◌ org_get get_value read_org read_user unmarshal decode_org encode_org
    member_joined org_update org_create set_value user_update user_get etcd_profile_path
    etcd_org_path str_eq decode_slice encode_items decode_member encode_member decode_user
    encode_user decode_status encode_status decode_quota encode_quota decode_brief encode_brief
bob_joins = refl

org_join-Gives_example :
    (o : Orgnazition) × (o' : Orgnazition) × (u : UserInfo) × HasOrg world_stored world0 acme_id o
    × HasUser world_stored world0 (codes "bob") u
    × ((l : List OrgMember) × AreStamped (codes "bob") o.member_list l
        × (o' ≡ record o { member_list = l }))
    × (IsStoredOrg world_stored world_joined o'
        × IsStoredUser world_stored world_joined (add_org_to_list u o')
        × ChangesOnly world_stored world0 o'.id (add_org_to_list u o').username world_joined)
org_join-Gives_example =
    org_join-Gives small_backend world_stored small_laws world0 bob acme_id bob_joins

abbrev world_stranger : World
world_stranger = (org_join small_backend carol acme_id world0).1

carol_joins : Gives (org_join small_backend carol acme_id) world0 tt world_stranger
unfolding org_join ◌>>=◌ org_get get_value read_org read_user unmarshal decode_org encode_org
    member_joined org_update org_create set_value user_update user_get etcd_profile_path
    etcd_org_path str_eq decode_slice encode_items decode_member encode_member decode_user
    encode_user decode_status encode_status decode_quota encode_quota decode_brief encode_brief
carol_joins = refl

acme_stored : HasOrg world_stored world0 acme_id acme
unfolding etcd_org_path str_eq
acme_stored = (json (encode_org acme), refl, read_org-encode_org acme)

carol_absent : name_exists (codes "carol") acme.member_list ≡ false
unfolding name_exists str_eq
carol_absent = refl

org_join-stranger_example :
    IsStoredOrg world_stored world_stranger acme
    × (u : UserInfo) × IsStoredUser world_stored world_stranger u
    × (check_if_org_exist_by_id u acme_id ≡ true)
org_join-stranger_example =
    org_join-stranger small_backend world_stored small_laws world0 carol acme_id acme acme_stored
      carol_absent carol_joins

abbrev bobs : Orgnazition
bobs = record empty_org { name = codes "bobs" }

abbrev bobs_created : Orgnazition
bobs_created = created_org bob bobs (codes "2016-08-01T00:00:00Z") (codes "aaaaaaaa")

abbrev world_bobs : World
world_bobs = (create_org small_backend bob bobs world0).1

bob_creates : Gives (create_org small_backend bob bobs) world0 bobs_created world_bobs
unfolding create_org ◌>>=◌ generated_org_name create_project create_role_binding send_request
    org_create set_value user_update creator_member
bob_creates = refl

create_org-Gives_example :
    (leb_ℤ (pos 9999999) bob.status.quota.org_used ≡ false)
    × ((time : Str) × (name : Str) × (length name ≡ 8)
        × (bobs_created ≡ created_org bob bobs time name))
    × (IsStoredOrg world_stored world_bobs bobs_created
        × IsStoredUser world_stored world_bobs (creating_user bob bobs_created)
        × ChangesOnly world_stored world0 bobs_created.id (codes "bob") world_bobs)
create_org-Gives_example =
    create_org-Gives small_backend world_stored small_laws bob bobs world0 bob_creates

abbrev world_active : World
world_active = (active_account small_backend (codes "bob") (codes "01ab") world0).1

bob_activated :
    Gives (active_account small_backend (codes "bob") (codes "01ab")) world0 tt world_active
unfolding active_account ◌>>=◌ get_value set_value delete read_user unmarshal decode_user
    encode_user decode_status encode_status decode_quota encode_quota decode_brief encode_brief
    decode_slice encode_items etcd_profile_path etcd_org_path str_eq
bob_activated = refl

active_account-Gives_example :
    (u : UserInfo) × HasUser world_stored world0 (codes "bob") u
    × IsStoredUser world_stored world_active (activated u)
    × (world_stored world_active (etcd_verify_path (codes "01ab")) ≡ none)
    × ((k : Str)
        → (etcd_profile_path u.username ≡ k → ⊥)
        → (etcd_verify_path (codes "01ab") ≡ k → ⊥)
        → world_stored world_active k ≡ world_stored world0 k)
active_account-Gives_example =
    active_account-Gives small_backend world_stored small_laws (codes "bob") (codes "01ab") world0
      bob_activated

same_name : str_eq (codes "bob") (codes "bob") ≡ true
unfolding str_eq
same_name = refl

bob_there : name_exists (codes "bob") acme.member_list ≡ true
unfolding name_exists str_eq
bob_there = refl

remove_from-none_example :
    remove_from (codes "bob") (acme.member_list ++ joined_as (codes "bob") true ∷ []) ≡ none
remove_from-none_example =
    remove_from-none (codes "bob") acme.member_list (joined_as (codes "bob") true) same_name
      bob_there
