-- ===== src/User/Organizations/Success.antt =====
-- What the operations on organizations did to the store if they returned, where the names in the
-- member lists are unique.
use datafoundry_proxy.Base.{
  ◌≡◌, refl, sym, ap, ◌∙◌, subst, Bool, true, false, not, Option, Str, str_eq,
}
use datafoundry_proxy.Types.{UserInfo, OrgMember, Orgnazition}
use datafoundry_proxy.Effect.{M, ◌>>=◌}
use datafoundry_proxy.Effect.Success.{Gives, after_guard, after_pure, pure-Gives}
use datafoundry_proxy.Json.Codec.{Value}
use datafoundry_proxy.Paths.{profile_path-ne-org_path}
use datafoundry_proxy.Backend.{Backend}
use datafoundry_proxy.Backend.Laws.{Laws}
use datafoundry_proxy.Store.Keeps.{OrgsAre}
use datafoundry_proxy.Store.Success.{
  HasOrg, HasUser, IsStoredOrg, IsStoredUser, ChangesOnly, IsSame-IsOfStore, IsWritten-IsSame,
  IsSame-IsWritten, org_then_user, user_update-Gives,
}
use datafoundry_proxy.Store.Success.Steps.{
  after_org_get, after_user_get, after_org_update, after_user_update, after_keeping,
}
use datafoundry_proxy.Org.{is_admin, is_last_admin, is_member_exist, removed, remove_member}
use datafoundry_proxy.Org.Members.{without, HasUniqueNames}
use datafoundry_proxy.Org.Remove.{remove_from-without}
use datafoundry_proxy.User.{delete_org_from_list}
use datafoundry_proxy.Project.Keeps.{Keeps-update_role_binding}
use datafoundry_proxy.User.Organizations.{org_leave, org_remove_member}

-- The organization without this member.
abbrev pub left_by : Str → Orgnazition → Orgnazition
left_by name o = record o { member_list = without name o.member_list }

pub not-true : (b : Bool) → not b ≡ true → b ≡ false
not-true false h = refl
not-true true h = cc

after_removed :
    {W A : Type 0} {C : Type 0} (o : Orgnazition) (name : Str) (f : Orgnazition → M W A) {w : W}
    {a : A} {w'' : W}
    → HasUniqueNames o
    → Gives (remove_member o name >>= f) w a w''
    → (Gives (f (left_by name o)) w a w'' → C)
    → C
unfolding remove_member
after_removed {W} o name f {w} {a} {w''} u e next =
    after_pure (left_by name o) f
      (subst (λ r. Gives (removed {W = W} o r >>= f) w a w'')
        (remove_from-without name o.member_list u) e)
      next

-- What an operation by which the member of this name leaves the stored organization has done.
abbrev pub HasLeft :
    {W : Type 0} → (W → Str → Option Value) → W → Str → Str → UserInfo → Orgnazition → W → Type 0
HasLeft stored w id name u o w' =
    HasOrg stored w id o
    × (IsStoredOrg stored w' (left_by name o)
        × IsStoredUser stored w' (delete_org_from_list u id)
        × ChangesOnly stored w o.id u.username w')

module _ {W : Type 0} (B : Backend W) (stored : W → Str → Option Value) (L : Laws B stored) (w : W)
    (unique : OrgsAre stored HasUniqueNames w) where
  -- Where the names of the stored members are unique and `OrgLeave` returns: the caller was not the
  -- last admin, the organization is stored without the caller and otherwise as it was, the caller's
  -- profile is stored as it was given with the organization taken off its list, and nothing else of
  -- the store has changed.
  pub org_leave-Gives :
      (user : UserInfo) (id : Str) {w' : W}
      → Gives (org_leave B user id) w tt w'
      → (o : Orgnazition) × (is_last_admin o user.username ≡ false)
        × HasLeft stored w id user.username user o w'
  unfolding org_leave delete_org_from_list
  org_leave-Gives user id e = after_org_get B stored L id _ e (λ o w1 (v, there, parsed) same e.
      after_guard _ _ _ e (λ allowed e.
        after_removed o user.username _ (unique id v o there parsed) e (λ e.
          after_org_update B stored L (left_by user.username o) _ e (λ w2 written e. (
            o,
            not-true _ allowed,
            (
              (v, there, parsed),
              org_then_user stored (left_by user.username o) (delete_org_from_list user id)
                  (IsWritten-IsSame stored same written)
                  (user_update-Gives B stored L (delete_org_from_list user id) e),
            ),
          )))))

  -- Where the names of the stored members are unique and `OrgRemoveMember` returns: the caller is an
  -- admin and another user than the member, who was in the list; the organization that is returned
  -- and stored is the one from before without the member, the member's stored profile is the one from
  -- before with the organization taken off its list, and nothing else of the store has changed.
  pub org_remove_member-Gives :
      (user : UserInfo) (member : OrgMember) (id : Str) {o' : Orgnazition} {w' : W}
      → Gives (org_remove_member B user member id) w o' w'
      → (o : Orgnazition) × (u : UserInfo) × (str_eq user.username member.member_name ≡ false)
        × (is_admin o user.username ≡ true)
        × (is_member_exist o member ≡ true)
        × HasUser stored w member.member_name u
        × (o' ≡ left_by member.member_name o)
        × HasLeft stored w id member.member_name u o w'
  unfolding org_remove_member delete_org_from_list
  org_remove_member-Gives user member id e = after_guard _ _ _ e (λ other e.
      after_org_get B stored L id _ e (λ o w1 (v, there, parsed) same e.
        after_guard _ _ _ e (λ admin e. after_guard _ _ _ e (λ exists e.
          after_removed o member.member_name _ (unique id v o there parsed) e (λ e.
            after_org_update B stored L (left_by member.member_name o) _ e (λ w2 written e.
              after_keeping B stored L _ _
                (Keeps-update_role_binding B stored L _ (IsSame-IsOfStore stored w2) user
                  (left_by member.member_name o))
                e
                (λ t w3 same3 e.
                  after_user_get B stored L member.member_name _ e (λ u w4 (x, has, read) same4 e.
                    after_user_update B stored L (delete_org_from_list u id) _ e
                      (λ w5 user_written e.
                        let written' = IsWritten-IsSame stored same written in
                        let (o'_is, end) = pure-Gives (left_by member.member_name o) e in
                        (
                          o,
                          u,
                          not-true _ other,
                          admin,
                          exists,
                          (
                            x,
                            sym (
                                  same3 _
                                  ∙ written'.1 _ (λ q.
                                    profile_path-ne-org_path member.member_name o.id (sym q)))
                                ∙ has,
                            read,
                          ),
                          o'_is,
                          (
                            (v, there, parsed),
                            org_then_user stored (left_by member.member_name o)
                                (delete_org_from_list u id)
                                (IsSame-IsWritten stored (IsSame-IsWritten stored written' same3)
                                  same4)
                                (IsSame-IsWritten stored user_written
                                  (λ k. ap (λ z. stored z k) end)),
                          ),
                        ))))))))))
