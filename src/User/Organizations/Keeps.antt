-- ===== src/User/Organizations/Keeps.antt =====
-- A property of all stored organizations is kept by every operation, as soon as the one change that
-- the operation makes to an organization keeps it.
use datafoundry_proxy.Base.{
  ℕ, zero, suc, ◌≡◌, refl, Bool, true, false, not, List, [], ◌∷◌, ◌++◌, Option, none, some, Str,
  str_eq,
}
use datafoundry_proxy.Types.{OrgBrief, UserInfo, OrgMember, Orgnazition}
use datafoundry_proxy.Effect.{Result, ok, err}
use datafoundry_proxy.Effect.Ensures.{
  Any, Succeeds, Ensures-pure, Ensures-fail, Ensures-panic, Ensures-guard, Ensures-attempt,
  Ensures-Any, Ensures-bind, Any-bind, keeps_rules,
}
use datafoundry_proxy.Json.Codec.{Value}
use datafoundry_proxy.Backend.{Backend}
use datafoundry_proxy.Backend.Laws.{Laws}
use datafoundry_proxy.Http.Keeps.{Keeps}
use datafoundry_proxy.Store.Keeps.{
  OrgsAre, OrgsAre-IsOfStore, Ensures-org_get, Ensures-org_create, Ensures-org_update,
  Ensures-user_get, Ensures-user_update, Ensures-if_exist, Ensures-get_profile, Ensures-now,
  Ensures-rand_intn, Ensures-org_delete,
}
use datafoundry_proxy.Project.Keeps.{
  Keeps-create_project, Keeps-openshift_delete_project, Keeps-update_role_binding,
}
use datafoundry_proxy.Org.{is_admin, is_last_admin, is_member_exist, remove_from, privileged_in}
use datafoundry_proxy.Org.Effects.{AreJoinedFrom, Ensures-remove_member, Ensures-member_joined}
use datafoundry_proxy.User.Organizations.{
  generated_org_name, org_leave, org_join, invited, invite_to, invite_result, org_invite,
  org_remove_member, privilege_found, org_privilege, creator_member, create_org, creator_profile,
  delete_org, list_from, list_orgs,
}

not-true→false : (b : Bool) → not b ≡ true → b ≡ false
not-true→false true h = cc
not-true→false false h = refl

module _ {W : Type 0} (B : Backend W) (stored : W → Str → Option Value) (L : Laws B stored)
    (P : Orgnazition → Type 0) where
  pub Keeps-org_leave :
      (user : UserInfo) (org_id : Str)
      → ((o : Orgnazition) (l : List OrgMember)
          → P o
          → is_last_admin o user.username ≡ false
          → remove_from user.username o.member_list ≡ some l
          → P (record o { member_list = l }))
      → Keeps B stored L P (org_leave B user org_id)
  unfolding org_leave
  Keeps-org_leave user org_id close =
      Ensures-bind P _ _ (Ensures-org_get B stored L P org_id) (λ o p.
        Ensures-bind _ _ _ (Ensures-guard _ _) (λ _ g.
          Ensures-bind P _ _
            (Ensures-remove_member P o user.username (λ l e. close o l p (not-true→false _ g) e))
            (λ o' p'.
              Ensures-bind _ _ _ (Ensures-org_update B stored L P o' p')
                (λ _ _. Ensures-user_update B stored L P _))))

  pub Keeps-org_join :
      (user : UserInfo) (org_id : Str)
      → ((o : Orgnazition) (l : List OrgMember)
          → P o
          → AreJoinedFrom o.member_list l
          → P (record o { member_list = l }))
      → Keeps B stored L P (org_join B user org_id)
  unfolding org_join
  Keeps-org_join user org_id close =
      Ensures-bind P _ _ (Ensures-org_get B stored L P org_id) (λ o p.
        Ensures-bind P _ _
          (Ensures-member_joined B (Ensures-now B stored L P) P o user.username
            (λ l j. close o l p j))
          (λ o' p'. Ensures-bind _ _ _ (Ensures-org_update B stored L P o' p') (λ _ _.
            Ensures-bind Any _ _ (Ensures-user_get B stored L P user.username)
              (λ u _. Ensures-user_update B stored L P _))))

  Keeps-invite_to :
      (user : UserInfo) (member : OrgMember) (o : Orgnazition)
      → (is_member_exist o member ≡ false
          → P (record o { member_list = o.member_list ++ invited user member ∷ [] }))
      → Keeps B stored L P (invite_to B user member o)
  unfolding invite_to
  Keeps-invite_to user member o close = Ensures-bind _ _ _ (Ensures-guard _ _) (λ _ _.
      Ensures-bind _ _ _ (Ensures-guard _ _) (λ _ fresh.
        Ensures-bind Any _ _ (Ensures-if_exist B stored L P member.member_name) (λ r _.
          Ensures-bind _ _ _ (Ensures-guard _ _) (λ _ _.
            Ensures-bind Any _ _
              (Keeps-update_role_binding B stored L (OrgsAre stored P) (OrgsAre-IsOfStore stored P)
                user _)
              (λ _ _.
                Ensures-Any _
                  (Ensures-org_update B stored L P _ (close (not-true→false _ fresh))))))))

  pub Keeps-org_invite :
      (user : UserInfo) (member : OrgMember) (org_id : Str)
      → ((o : Orgnazition)
          → P o
          → is_member_exist o member ≡ false
          → P (record o { member_list = o.member_list ++ invited user member ∷ [] }))
      → Keeps B stored L P (org_invite B user member org_id)
  unfolding org_invite
  Keeps-org_invite user member org_id close =
      Ensures-bind (Succeeds P) _ _ (Ensures-attempt _ (Ensures-org_get B stored L P org_id)) result
    where
      result :
          (r : Result Orgnazition)
          → Succeeds P r
          → Keeps B stored L P (invite_result B user member r)
      result (ok o) p = Keeps-invite_to user member o (close o p)
      result (err e) p = Ensures-panic

  pub Keeps-org_remove_member :
      (user : UserInfo) (member : OrgMember) (org_id : Str)
      → ((o : Orgnazition) (l : List OrgMember)
          → P o
          → str_eq user.username member.member_name ≡ false
          → is_admin o user.username ≡ true
          → remove_from member.member_name o.member_list ≡ some l
          → P (record o { member_list = l }))
      → Keeps B stored L P (org_remove_member B user member org_id)
  unfolding org_remove_member
  Keeps-org_remove_member user member org_id close =
      Ensures-bind _ _ _ (Ensures-guard _ _) (λ _ other.
        Ensures-bind P _ _ (Ensures-org_get B stored L P org_id) (λ o p.
          Ensures-bind _ _ _ (Ensures-guard _ _) (λ _ admin.
            Ensures-bind _ _ _ (Ensures-guard _ _) (λ _ _.
              Ensures-bind P _ _
                (Ensures-remove_member P o member.member_name
                  (λ l e. close o l p (not-true→false _ other) admin e))
                (λ o' p'. Ensures-bind _ _ _ (Ensures-org_update B stored L P o' p') (λ _ _.
                  search (
                    keeps_rules,
                    Keeps-update_role_binding B stored L (OrgsAre stored P)
                        (OrgsAre-IsOfStore stored P),
                    Ensures-user_get B stored L P,
                    Ensures-user_update B stored L P,
                  )))))))

  Keeps-privilege_found :
      (user : UserInfo) (o : Orgnazition) (r : Option (List OrgMember))
      → ((l : List OrgMember) → r ≡ some l → P (record o { member_list = l }))
      → Keeps B stored L P (privilege_found B user o r)
  Keeps-privilege_found user o none close = Ensures-fail _
  Keeps-privilege_found user o (some l) close =
      Ensures-bind Any _ _
        (Keeps-update_role_binding B stored L (OrgsAre stored P) (OrgsAre-IsOfStore stored P) user
          _)
        (λ _ _. Ensures-Any _ (Ensures-org_update B stored L P _ (close l refl)))

  pub Keeps-org_privilege :
      (user : UserInfo) (member : OrgMember) (org_id : Str)
      → ((o : Orgnazition) (l : List OrgMember)
          → P o
          → is_last_admin o member.member_name ≡ false
          → privileged_in member.member_name member.is_admin user.username o.member_list ≡ some l
          → P (record o { member_list = l }))
      → Keeps B stored L P (org_privilege B user member org_id)
  unfolding org_privilege
  Keeps-org_privilege user member org_id close =
      Ensures-bind P _ _ (Ensures-org_get B stored L P org_id) (λ o p.
        Ensures-bind _ _ _ (Ensures-guard _ _) (λ _ _.
          Ensures-bind _ _ _ (Ensures-guard _ _) (λ _ last.
            Ensures-bind _ _ _ (Ensures-guard _ _) (λ _ _.
              Keeps-privilege_found user o _ (λ l e. close o l p (not-true→false _ last) e)))))

  Keeps-generated_org_name : (strlen : ℕ) → Keeps B stored L P (generated_org_name B strlen)
  unfolding generated_org_name
  Keeps-generated_org_name zero = search keeps_rules
  Keeps-generated_org_name (suc strlen) =
      Any-bind _ _ (Ensures-rand_intn B stored L P 36)
        (λ i. Any-bind _ _ (Keeps-generated_org_name strlen) (λ rest. Ensures-pure _ tt))

  pub Keeps-create_org :
      (usr : UserInfo) (org : Orgnazition)
      → ((o : Orgnazition) (time : Str)
          → o.member_list ≡ org.member_list ++ creator_member usr time ∷ []
          → P o)
      → Keeps B stored L P (create_org B usr org)
  unfolding create_org
  Keeps-create_org usr org close = Ensures-bind _ _ _ (Ensures-guard _ _) (λ _ _.
      Ensures-bind Any _ _ (Ensures-now B stored L P) (λ time _.
        Ensures-bind Any _ _ (Keeps-generated_org_name 8) (λ name _.
          Ensures-bind Any _ _
            (Keeps-create_project B stored L (OrgsAre stored P) (OrgsAre-IsOfStore stored P) usr _)
            (λ _ _.
              Ensures-bind Any _ _
                (Ensures-Any _ (Ensures-org_create B stored L P _ (close _ time refl)))
                (λ o _. search (keeps_rules, Ensures-user_update B stored L P))))))

  Keeps-creator_profile : (r : Result Value) → Keeps B stored L P (creator_profile B r)
  Keeps-creator_profile (ok v) = search keeps_rules
  Keeps-creator_profile (err e) = search keeps_rules

  pub Keeps-delete_org :
      (user : UserInfo) (org_id : Str) → Keeps B stored L P (delete_org B user org_id)
  unfolding delete_org
  Keeps-delete_org user org_id = Ensures-bind P _ _ (Ensures-org_get B stored L P org_id) (λ o _.
      Ensures-bind _ _ _ (Ensures-guard _ _) (λ _ _. Ensures-bind _ _ _ (Ensures-guard _ _) (λ _ _.
        Any-bind _ _
          (Keeps-openshift_delete_project B stored L (OrgsAre stored P) (OrgsAre-IsOfStore stored P)
            user o)
          (λ _. Any-bind _ _ (Ensures-user_update B stored L P _) (λ _.
            search
              (
                keeps_rules,
                Ensures-get_profile B stored L P,
                Keeps-creator_profile,
                Ensures-user_update B stored L P,
                Ensures-org_delete B stored L P,
              )
              depth 8)))))

  Keeps-list_from : (l : List OrgBrief) → Keeps B stored L P (list_from B l)
  unfolding list_from
  Keeps-list_from [] = search keeps_rules
  Keeps-list_from (b ∷ l) =
      Any-bind _ _ (Ensures-Any _ (Ensures-attempt _ (Ensures-org_get B stored L P b.org_id)))
        (λ r. Any-bind _ _ (Keeps-list_from l) (λ rest. Ensures-pure _ tt))

  pub Keeps-list_orgs : (user : UserInfo) → Keeps B stored L P (list_orgs B user)
  unfolding list_orgs
  Keeps-list_orgs user = Keeps-list_from user.org_list
