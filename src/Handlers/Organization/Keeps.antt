-- ===== src/Handlers/Organization/Keeps.antt =====
-- The handlers of organizations keep a property of the stored organizations that the changes of a
-- member list keep.
use datafoundry_proxy.Base.{
  ◌≡◌, refl, Bool, true, false, List, [], ◌∷◌, ◌++◌, Option, some, Str, codes, str_eq, not, ltb,
  byte_length,
}
use datafoundry_proxy.Types.{UserInfo, OrgMember, Orgnazition, empty_org}
use datafoundry_proxy.Effect.{Result, ok, err}
use datafoundry_proxy.Effect.Ensures.{
  Any, Succeeds, Ensures-lift, Ensures-if, Ensures-Any, Any-pure, Any-lift,
}
use datafoundry_proxy.Json.Codec.{Value, decode_org}
use datafoundry_proxy.Backend.{Backend}
use datafoundry_proxy.Backend.Laws.{Laws}
use datafoundry_proxy.Http.Keeps.{Keeps}
use datafoundry_proxy.Store.Keeps.{Ensures-org_get}
use datafoundry_proxy.Auth.{Request, parse_request_body}
use datafoundry_proxy.Org.{is_admin, is_last_admin, is_member_exist, remove_from, privileged_in}
use datafoundry_proxy.Org.Effects.{AreJoinedFrom}
use datafoundry_proxy.User.Organizations.{invited, creator_member}
use datafoundry_proxy.User.Organizations.Keeps.{
  Keeps-org_leave, Keeps-org_join, Keeps-org_invite, Keeps-org_remove_member, Keeps-org_privilege,
  Keeps-create_org, Keeps-delete_org, Keeps-list_orgs,
}
use datafoundry_proxy.Errors.{
  ldp_error_new, err_code_org_not_found, err_code_org_name_too_short, err_code_org_exist,
}
use datafoundry_proxy.User.{check_if_org_exist, check_if_org_exist_by_id}
use datafoundry_proxy.User.Organizations.{org_remove_member, org_invite, org_privilege, create_org}
use datafoundry_proxy.Response.{org}
use datafoundry_proxy.Handlers.Keeps.{
  Keeps-or_respond, Keeps-unless, Keeps-answer, Keeps-answer_nil, Keeps-with_user,
}
use datafoundry_proxy.Handlers.Organization.{
  with_token, delete_organization, join_organization, leave_organization, list_organizations,
  create_organization, get_organization, managed, manage_organization,
}

-- The changes that a member list may always undergo: a user who is not the last admin leaves or has
-- its privilege changed, members become joined, and a new member is invited.
pub record IsClosed (P : Orgnazition → Type 0) : Type 0 where
  pub leave :
      (name : Str) (o : Orgnazition) (l : List OrgMember)
      → P o
      → is_last_admin o name ≡ false
      → remove_from name o.member_list ≡ some l
      → P (record o { member_list = l })
  pub join :
      (o : Orgnazition) (l : List OrgMember)
      → P o
      → AreJoinedFrom o.member_list l
      → P (record o { member_list = l })
  pub invite :
      (user : UserInfo) (member : OrgMember) (o : Orgnazition)
      → P o
      → is_member_exist o member ≡ false
      → P (record o { member_list = o.member_list ++ invited user member ∷ [] })
  pub privilege :
      (name by : Str) (admin : Bool) (o : Orgnazition) (l : List OrgMember)
      → P o
      → is_last_admin o name ≡ false
      → privileged_in name admin by o.member_list ≡ some l
      → P (record o { member_list = l })

-- An admin removes another member.
abbrev pub RemovalKeeps : (Orgnazition → Type 0) → Type 0
RemovalKeeps P =
    (user name : Str) (o : Orgnazition) (l : List OrgMember)
    → P o
    → str_eq user name ≡ false
    → is_admin o user ≡ true
    → remove_from name o.member_list ≡ some l
    → P (record o { member_list = l })

-- The organization that a request to create one leads to.
abbrev pub CreationHas : (Orgnazition → Type 0) → Request → Type 0
CreationHas P r =
    (body o : Orgnazition) (usr : UserInfo) (time : Str)
    → parse_request_body decode_org empty_org r ≡ ok body
    → o.member_list ≡ body.member_list ++ creator_member usr time ∷ []
    → P o

module _ {W : Type 0} (B : Backend W) (stored : W → Str → Option Value) (L : Laws B stored)
    (P : Orgnazition → Type 0) (closed : IsClosed P) where
  pub Keeps-delete_organization : (r : Request) → Keeps B stored L P (delete_organization B r)
  unfolding delete_organization
  Keeps-delete_organization r = Keeps-with_user B stored L P r _ (λ u.
      Keeps-unless B stored L P (check_if_org_exist_by_id u r.org)
        (ldp_error_new err_code_org_not_found) 404 _
        (Keeps-answer B stored L P _ _ (Keeps-delete_org B stored L P _ r.org)))

  pub Keeps-join_organization : (r : Request) → Keeps B stored L P (join_organization B r)
  unfolding join_organization
  Keeps-join_organization r =
      Keeps-with_user B stored L P r _
        (λ u. Keeps-answer_nil B stored L P _ (Keeps-org_join B stored L P u r.org closed.join))

  pub Keeps-leave_organization : (r : Request) → Keeps B stored L P (leave_organization B r)
  unfolding leave_organization
  Keeps-leave_organization r = Keeps-with_user B stored L P r _ (λ u.
      Keeps-unless B stored L P (check_if_org_exist_by_id u r.org)
        (ldp_error_new err_code_org_not_found) 404 _
        (Keeps-answer_nil B stored L P _
          (Keeps-org_leave B stored L P u r.org (closed.leave u.username))))

  pub Keeps-list_organizations : (r : Request) → Keeps B stored L P (list_organizations B r)
  unfolding list_organizations
  Keeps-list_organizations r =
      Keeps-with_user B stored L P r _
        (λ u. Keeps-answer B stored L P _ _ (Keeps-list_orgs B stored L P u))

  pub Keeps-get_organization : (r : Request) → Keeps B stored L P (get_organization B r)
  unfolding get_organization
  Keeps-get_organization r = Keeps-with_user B stored L P r _ (λ u.
      Keeps-unless B stored L P (check_if_org_exist_by_id u r.org)
        (ldp_error_new err_code_org_not_found) 404 _
        (Keeps-answer B stored L P _ _ (Ensures-Any _ (Ensures-org_get B stored L P r.org))))

  pub Keeps-create_organization :
      (r : Request) → CreationHas P r → Keeps B stored L P (create_organization B r)
  unfolding create_organization
  Keeps-create_organization r has = Keeps-with_user B stored L P r _ (λ u.
      Keeps-or_respond B stored L P (λ body. parse_request_body decode_org empty_org r ≡ ok body) _
        400 _ (Ensures-lift _ (parsed (parse_request_body decode_org empty_org r) refl))
        (λ body e.
          Keeps-unless B stored L P (not (ltb (byte_length body.name) 2))
            (ldp_error_new err_code_org_name_too_short) 400 _
            (Keeps-unless B stored L P (not (check_if_org_exist u body.name))
              (ldp_error_new err_code_org_exist) 400 _
              (Keeps-answer B stored L P (create_org B (with_token r u) body) (λ o. org o)
                (Keeps-create_org B stored L P (with_token r u) body
                  (λ o time h. has body o _ time e h))))))
    where
      parsed :
          (p : Result Orgnazition)
          → parse_request_body decode_org empty_org r ≡ p
          → Succeeds (λ body. parse_request_body decode_org empty_org r ≡ ok body) p
      parsed (ok o) e = e
      parsed (err x) e = tt

  Keeps-managed :
      (user : UserInfo) (r : Request) (member : OrgMember)
      → (str_eq r.action (codes "remove") ≡ true → RemovalKeeps P)
      → Keeps B stored L P (managed B user r member)
  unfolding managed
  Keeps-managed user r member removal =
      Ensures-if (str_eq r.action (codes "remove")) _ _
        (λ e.
          Keeps-answer B stored L P (org_remove_member B user member r.org) (λ o. org o)
            (Keeps-org_remove_member B stored L P user member r.org
              (removal e user.username member.member_name)))
        (λ _.
          Ensures-if (str_eq r.action (codes "invite")) _ _
            (λ _.
              Keeps-answer B stored L P (org_invite B user member r.org) (λ o. org o)
                (Keeps-org_invite B stored L P user member r.org (closed.invite user member)))
            (λ _.
              Ensures-if (str_eq r.action (codes "privileged")) _ _
                (λ _.
                  Keeps-answer B stored L P (org_privilege B user member r.org) (λ o. org o)
                    (Keeps-org_privilege B stored L P user member r.org
                      (closed.privilege member.member_name user.username member.is_admin)))
                (λ _. Any-pure _)))

  pub Keeps-manage_organization :
      (r : Request)
      → (str_eq r.action (codes "remove") ≡ true → RemovalKeeps P)
      → Keeps B stored L P (manage_organization B r)
  unfolding manage_organization
  Keeps-manage_organization r removal = Keeps-with_user B stored L P r _ (λ u.
      Ensures-if (str_eq r.action (codes "accept")) _ _ (λ _. Keeps-join_organization r)
        (λ _.
          Ensures-if (str_eq r.action (codes "leave")) _ _ (λ _. Keeps-leave_organization r)
            (λ _.
              Keeps-unless B stored L P (check_if_org_exist_by_id u r.org)
                (ldp_error_new err_code_org_not_found) 404 _
                (Keeps-or_respond B stored L P Any _ 400 _ (Any-lift _)
                  (λ member _. Keeps-managed (with_token r u) r member removal)))))
