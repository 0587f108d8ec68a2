-- ===== src/User/Organizations/Join.antt =====
-- What `OrgJoin` did to the store if it returned. It does not ask whether the user has been invited.
use datafoundry_proxy.Base.{
  ◌≡◌, refl, sym, ap, ◌∙◌, subst, true, false, List, Option, Str, str_eq_refl,
}
use datafoundry_proxy.Types.{UserInfo, OrgMember, Orgnazition}
use datafoundry_proxy.Effect.Success.{Gives}
use datafoundry_proxy.Json.Codec.{Value}
use datafoundry_proxy.Paths.{etcd_org_path, profile_path-ne-org_path}
use datafoundry_proxy.Backend.{Backend}
use datafoundry_proxy.Backend.Laws.{Laws}
use datafoundry_proxy.Store.Success.{
  HasOrg, HasUser, IsStoredOrg, IsStoredUser, ChangesOnly, IsWritten-IsSame, IsSame-IsWritten,
  org_then_user, quiet_call, user_update-Gives,
}
use datafoundry_proxy.Store.Success.Steps.{
  after_org_get, after_user_get, after_org_update, after_ensuring,
}
use datafoundry_proxy.Org.{name_exists, member_joined}
use datafoundry_proxy.Org.Effects.{AreStamped, AreStamped-absent, member_joined-AreStamped}
use datafoundry_proxy.User.{add_org_to_list, check_if_org_exist_by_id}
use datafoundry_proxy.User.Lists.{exist-add_org_to_list}
use datafoundry_proxy.User.Organizations.{org_join}
use datafoundry_proxy.Store.Success.{HasOrg-same}

module _ {W : Type 0} (B : Backend W) (stored : W → Str → Option Value) (L : Laws B stored)
    (w : W) where
  -- If `OrgJoin` returns, then the organization is stored with the members of the caller's name marked
  -- as joined, with a time, and everything else as it was; the caller's profile is stored with the
  -- organization added to its list; and nothing else of the store has changed.
  pub org_join-Gives :
      (user : UserInfo) (id : Str) {w' : W}
      → Gives (org_join B user id) w tt w'
      → (o : Orgnazition) × (o' : Orgnazition) × (u : UserInfo) × HasOrg stored w id o
        × HasUser stored w user.username u
        × ((l : List OrgMember) × AreStamped user.username o.member_list l
            × (o' ≡ record o { member_list = l }))
        × (IsStoredOrg stored w' o'
            × IsStoredUser stored w' (add_org_to_list u o')
            × ChangesOnly stored w o'.id (add_org_to_list u o').username w')
  unfolding org_join
  org_join-Gives user id {w'} e = after_org_get B stored L id _ e (λ o w1 has same e.
      after_ensuring B stored L _ (member_joined B o user.username) _
        (member_joined-AreStamped B (quiet_call stored w1 B.now L.now_keeps) o user.username) e
        (λ o' w2 stamped same2 e. after_org_update B stored L o' _ e (λ w3 written e.
          after_user_get B stored L user.username _ e (λ u w4 (x, there, read) same4 e.
            let written' =
              IsWritten-IsSame stored {k = etcd_org_path o'.id} (λ k. same2 k ∙ same k) written in
            (
              o,
              o',
              u,
              has,
              (
                x,
                sym (written'.1 _ (λ q. profile_path-ne-org_path user.username o'.id (sym q)))
                    ∙ there,
                read,
              ),
              stamped,
              org_then_user stored o' (add_org_to_list u o')
                  (IsSame-IsWritten stored written' same4)
                  (user_update-Gives B stored L (add_org_to_list u o') e),
            )))))

  -- A caller who is in no way a member may accept too: if `OrgJoin` returns, the organization is stored
  -- as it was, and the stored profile of the caller lists it.
  pub org_join-stranger :
      (user : UserInfo) (id : Str) (o : Orgnazition) {w' : W}
      → HasOrg stored w id o
      → name_exists user.username o.member_list ≡ false
      → Gives (org_join B user id) w tt w'
      → IsStoredOrg stored w' o
        × (u : UserInfo) × IsStoredUser stored w' u
        × (check_if_org_exist_by_id u o.id ≡ true)
  org_join-stranger user id o {w'} has absent e =
      let (p, o', u, has', has_user, (l, stamped, o'_is), (there, user_there, others)) =
        org_join-Gives user id e in
      let same : p ≡ o = HasOrg-same stored w id p o has' has in
      let kept : l ≡ o.member_list =
        AreStamped-absent user.username o.member_list l absent
          (subst (λ (q : Orgnazition). AreStamped user.username q.member_list l) same stamped) in
      let o'_is_o : o' ≡ o =
        o'_is
        ∙ ap (λ (q : Orgnazition). record q { member_list = l }) same
        ∙ ap (λ m. record o { member_list = m }) kept in
      (
        subst (λ q. IsStoredOrg stored w' q) o'_is_o there,
        add_org_to_list u o',
        user_there,
        exist-add_org_to_list u o' o.id ∙ (rw (o'_is_o, str_eq_refl o.id) refl),
      )
