-- ===== src/User/Organizations/Profiles.antt =====
-- The profiles that CreateOrg and OrgLeave leave in the store, seen through the list of organizations
-- and the quota.
use datafoundry_proxy.Base.{
  ℕ, ◌+◌, ◌≡◌, refl, sym, ap, ◌∙◌, subst, true, false, List, [], ◌∷◌, ◌++◌, Option, Str, str_eq,
  str_eq_refl, arith, if◌then◌else◌,
}
use datafoundry_proxy.Base.Int.{pos, int64_inc, leb_ℤ}
use datafoundry_proxy.Types.{UserInfo, OrgMember, Orgnazition, org_member_status_joined}
use datafoundry_proxy.Effect.Success.{Gives}
use datafoundry_proxy.Json.Codec.{Value}
use datafoundry_proxy.Backend.{Backend}
use datafoundry_proxy.Backend.Laws.{Laws}
use datafoundry_proxy.Store.Keeps.{OrgsAre}
use datafoundry_proxy.Store.Success.{IsStoredOrg, IsStoredUser}
use datafoundry_proxy.Org.Members.{HasUniqueNames}
use datafoundry_proxy.Org.WellFormed.{joined_admin_named}
use datafoundry_proxy.User.{check_if_org_exist_by_id, delete_org_from_list}
use datafoundry_proxy.User.Lists.{UniqueIds, exist-delete_org_from_list, org_id_in-append}
use datafoundry_proxy.User.Organizations.{creator_member, create_org, org_leave}
use datafoundry_proxy.User.Organizations.Success.{org_leave-Gives}
use datafoundry_proxy.User.Organizations.Create.{creating_user, create_org-Gives}

joined_admin_named-creator_member :
    (usr : UserInfo) (time : Str) (l : List OrgMember)
    → joined_admin_named usr.username (l ++ creator_member usr time ∷ []) ≡ true
unfolding creator_member
joined_admin_named-creator_member usr time [] =
    ground (arith, str_eq_refl usr.username, str_eq_refl org_member_status_joined)
joined_admin_named-creator_member usr time (m ∷ l) =
    ground (arith, joined_admin_named-creator_member usr time l)

int64_inc-pos : (n : ℕ) → leb_ℤ (pos 9999999) (pos n) ≡ false → int64_inc (pos n) ≡ pos (n + 1)
unfolding int64_inc
int64_inc-pos n h = ground arith

module _ {W : Type 0} (B : Backend W) (stored : W → Str → Option Value) (L : Laws B stored) where
  -- If `CreateOrg` returns for a user who has used `n` organizations, then the stored organization has the
  -- user as an admin that has joined, and the profile that is stored for the user has `n + 1`
  -- organizations used, and lists the new organization, those that it listed before, and no other.
  pub create_org-counts :
      (usr : UserInfo) (body : Orgnazition) (n : ℕ) (w : W) {o : Orgnazition} {w' : W}
      → usr.status.quota.org_used ≡ pos n
      → Gives (create_org B usr body) w o w'
      → IsStoredOrg stored w' o
        × (joined_admin_named usr.username o.member_list ≡ true)
        × (u : UserInfo) × IsStoredUser stored w' u
        × (u.username ≡ usr.username)
        × (u.status.quota.org_used ≡ pos (n + 1))
        × ((j : Str)
            → check_if_org_exist_by_id u j
              ≡ (if str_eq o.id j then true else check_if_org_exist_by_id usr j))
  unfolding check_if_org_exist_by_id
  create_org-counts usr body n w {o} {w'} used e =
      let (below, (time, name, size, o_is), (org_there, user_there, only)) =
        create_org-Gives B stored L usr body w e in
      (
        org_there,
        subst (λ (x : Orgnazition). joined_admin_named usr.username x.member_list ≡ true) (sym o_is)
            (joined_admin_named-creator_member usr time body.member_list),
        creating_user usr o,
        user_there,
        refl,
        ap int64_inc used ∙ int64_inc-pos n (subst (λ k. leb_ℤ (pos 9999999) k ≡ false) used below),
        λ j.
            org_id_in-append j usr.org_list
              (record { org_id = o.id; org_name = o.name; org_alias = [] }),
      )

  -- Where the names of the stored members are unique, and so are the ids in the user's list, and
  -- `OrgLeave` returns: the profile that is stored for the user lists the organizations that it listed
  -- before, less the one that has been left.
  pub org_leave-unlists :
      (user : UserInfo) (id : Str) (w : W) {w' : W}
      → OrgsAre stored HasUniqueNames w
      → UniqueIds user.org_list
      → Gives (org_leave B user id) w tt w'
      → (u : UserInfo) × IsStoredUser stored w' u
        × (u.username ≡ user.username)
        × ((j : Str)
            → check_if_org_exist_by_id u j
              ≡ (if str_eq id j then false else check_if_org_exist_by_id user j))
  unfolding delete_org_from_list
  org_leave-unlists user id w unique ids e =
      let (o, allowed, (has, (org_there, user_there, only))) =
        org_leave-Gives B stored L w unique user id e in
      (
        delete_org_from_list user id,
        user_there,
        refl,
        λ j. exist-delete_org_from_list user id j ids,
      )
