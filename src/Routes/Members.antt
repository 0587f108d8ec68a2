-- ===== src/Routes/Members.antt =====
-- The member lists under any sequence of requests.
use datafoundry_proxy.Base.{
  ◌<◌, ◌≡◌, subst, false, List, [], ◌∷◌, ◌++◌, Option, some, Str, codes, str_eq, arith,
}
use datafoundry_proxy.Types.{UserInfo, OrgMember, Orgnazition, empty_org}
use datafoundry_proxy.Effect.{ok}
use datafoundry_proxy.Json.Codec.{Value, decode_org}
use datafoundry_proxy.Backend.{Backend}
use datafoundry_proxy.Backend.Laws.{Laws}
use datafoundry_proxy.Store.Keeps.{OrgsAre}
use datafoundry_proxy.Auth.{Request, parse_request_body}
use datafoundry_proxy.Org.{is_last_admin, is_member_exist, remove_from}
use datafoundry_proxy.Org.Members.{
  without, UniqueNames, HasUniqueNames, joined_admins, HasJoinedAdmin,
}
use datafoundry_proxy.Org.Remove.{remove_from-without}
use datafoundry_proxy.Org.Admins.{without-HasJoinedAdmin, privileged-HasJoinedAdmin}
use datafoundry_proxy.Org.WellFormed.{
  remove_from-UniqueNames, one-UniqueNames, AreJoinedFrom-UniqueNames, AreJoinedFrom-joined_admins,
  append-UniqueNames, joined_admins-append, privileged_in-UniqueNames,
}
use datafoundry_proxy.User.Organizations.{invited, creator_member}
use datafoundry_proxy.Handlers.Organization.Keeps.{IsClosed}
use datafoundry_proxy.Routes.{
  Route, post_signup, get_profile_route, put_password_modify, post_send_verify_email,
  get_verify_account, get_orgs, post_orgs, get_org, delete_org_route, put_org_action, not_found,
  serve,
}
use datafoundry_proxy.Routes.Keeps.{Allows, AllAllow, serve-OrgsAre}

-- A request to create an organization that lists no members of its own.
abbrev pub BringsNoMembers : Route × Request → Type 0
BringsNoMembers (post_orgs, r) =
    (body : Orgnazition)
    → parse_request_body decode_org empty_org r ≡ ok body
    → body.member_list ≡ []
BringsNoMembers _ = Unit

-- A request that does not ask to remove a member.
abbrev pub RemovesNobody : Route × Request → Type 0
RemovesNobody (put_org_action, r) = str_eq r.action (codes "remove") ≡ false
RemovesNobody _ = Unit

abbrev pub Every : (Route × Request → Type 0) → List (Route × Request) → Type 0
Every P [] = Unit
Every P (r ∷ l) = P r × Every P l

HasUniqueNames-IsClosed : IsClosed HasUniqueNames
unfolding invited is_member_exist
HasUniqueNames-IsClosed = record {
  leave = λ name o l h last e. remove_from-UniqueNames name o.member_list h e;
  join = λ o l h joined. AreJoinedFrom-UniqueNames o.member_list l joined h;
  invite =
      λ user member o h absent. append-UniqueNames o.member_list (invited user member) h absent;
  privilege =
      λ name by admin o l h last e. privileged_in-UniqueNames name by admin o.member_list e h;
}

creator-HasUniqueNames :
    (o body : Orgnazition) (usr : UserInfo) (time : Str)
    → body.member_list ≡ []
    → o.member_list ≡ body.member_list ++ creator_member usr time ∷ []
    → HasUniqueNames o
creator-HasUniqueNames o body usr time e h =
    subst UniqueNames {x = creator_member usr time ∷ []} {y = o.member_list} (cc)
      (one-UniqueNames (creator_member usr time))

Allows-unique : (r : Route × Request) → BringsNoMembers r → Allows HasUniqueNames r
Allows-unique (post_signup, r) h = tt
Allows-unique (get_profile_route, r) h = tt
Allows-unique (put_password_modify, r) h = tt
Allows-unique (post_send_verify_email, r) h = tt
Allows-unique (get_verify_account, r) h = tt
Allows-unique (get_orgs, r) h = tt
Allows-unique (post_orgs, r) h =
    λ body o usr time parsed e. creator-HasUniqueNames o body usr time (h body parsed) e
Allows-unique (get_org, r) h = tt
Allows-unique (delete_org_route, r) h = tt
Allows-unique (put_org_action, r) h =
    λ remove user name o l uniq other admin e. remove_from-UniqueNames name o.member_list uniq e
Allows-unique (not_found, r) h = tt

AllAllow-unique : (l : List (Route × Request)) → Every BringsNoMembers l → AllAllow HasUniqueNames l
AllAllow-unique [] h = tt
AllAllow-unique (r ∷ l) h = (Allows-unique r h.0, AllAllow-unique l h.1)

-- Whatever requests are served, in whatever order, and wherever the calls of etcd, OpenShift, LDAP
-- or the mail server fail: if no two members of a stored organization share a name before, then
-- none do after. Asked of the requests: one that creates an organization lists no members itself.
pub serve-HasUniqueNames :
    {W : Type 0} (B : Backend W) (stored : W → Str → Option Value) (L : Laws B stored)
    (requests : List (Route × Request)) (w : W)
    → Every BringsNoMembers requests
    → OrgsAre stored HasUniqueNames w
    → OrgsAre stored HasUniqueNames (serve B requests w).1
serve-HasUniqueNames B stored L requests w h =
    serve-OrgsAre B stored L HasUniqueNames HasUniqueNames-IsClosed requests w
      (AllAllow-unique requests h)

-- Unique names, and an admin that has joined.
abbrev pub IsGoverned : Orgnazition → Type 0
IsGoverned o = HasUniqueNames o × HasJoinedAdmin o

leave-HasJoinedAdmin :
    (name : Str) (o : Orgnazition) (l : List OrgMember)
    → IsGoverned o
    → is_last_admin o name ≡ false
    → remove_from name o.member_list ≡ some l
    → 0 < joined_admins l
leave-HasJoinedAdmin name o l h last e =
    subst (λ r. 0 < joined_admins r) {x = without name o.member_list} {y = l}
      (cc (remove_from-without name o.member_list h.0)) (without-HasJoinedAdmin o name h.0 h.1 last)

IsGoverned-IsClosed : IsClosed IsGoverned
IsGoverned-IsClosed = record {
  leave = λ name o l h last e.
      (HasUniqueNames-IsClosed.leave name o l h.0 last e, leave-HasJoinedAdmin name o l h last e);
  join = λ o l h joined. (
    HasUniqueNames-IsClosed.join o l h.0 joined,
    omega (arith, h.1, AreJoinedFrom-joined_admins o.member_list l joined),
  );
  invite = λ user member o h absent. (
    HasUniqueNames-IsClosed.invite user member o h.0 absent,
    omega (arith, h.1, joined_admins-append o.member_list (invited user member)),
  );
  privilege = λ name by admin o l h last e. (
    HasUniqueNames-IsClosed.privilege name by admin o l h.0 last e,
    privileged-HasJoinedAdmin o name admin by h.0 h.1 last e,
  );
}

creator-HasJoinedAdmin :
    (o body : Orgnazition) (usr : UserInfo) (time : Str)
    → body.member_list ≡ []
    → o.member_list ≡ body.member_list ++ creator_member usr time ∷ []
    → HasJoinedAdmin o
unfolding creator_member str_eq
creator-HasJoinedAdmin o body usr time e h =
    subst (λ l. 0 < joined_admins l) {x = creator_member usr time ∷ []} {y = o.member_list} (cc)
      (omega arith)

Allows-IsGoverned :
    (r : Route × Request) → BringsNoMembers r → RemovesNobody r → Allows IsGoverned r
Allows-IsGoverned (post_signup, r) h k = tt
Allows-IsGoverned (get_profile_route, r) h k = tt
Allows-IsGoverned (put_password_modify, r) h k = tt
Allows-IsGoverned (post_send_verify_email, r) h k = tt
Allows-IsGoverned (get_verify_account, r) h k = tt
Allows-IsGoverned (get_orgs, r) h k = tt
Allows-IsGoverned (post_orgs, r) h k = λ body o usr time parsed e. (
  creator-HasUniqueNames o body usr time (h body parsed) e,
  creator-HasJoinedAdmin o body usr time (h body parsed) e,
)
Allows-IsGoverned (get_org, r) h k = tt
Allows-IsGoverned (delete_org_route, r) h k = tt
Allows-IsGoverned (put_org_action, r) h k = λ remove. cc
Allows-IsGoverned (not_found, r) h k = tt

AllAllow-IsGoverned :
    (l : List (Route × Request))
    → Every BringsNoMembers l
    → Every RemovesNobody l
    → AllAllow IsGoverned l
AllAllow-IsGoverned [] h k = tt
AllAllow-IsGoverned (r ∷ l) h k = (Allows-IsGoverned r h.0 k.0, AllAllow-IsGoverned l h.1 k.1)

-- Every stored organization keeps an admin that has joined, and unique names, under any requests of
-- which those that create an organization list no members and none asks to remove a member: leaving,
-- joining, inviting, changing privileges, creating and deleting, and all that fails on the way.
pub serve-IsGoverned :
    {W : Type 0} (B : Backend W) (stored : W → Str → Option Value) (L : Laws B stored)
    (requests : List (Route × Request)) (w : W)
    → Every BringsNoMembers requests
    → Every RemovesNobody requests
    → OrgsAre stored IsGoverned w
    → OrgsAre stored IsGoverned (serve B requests w).1
serve-IsGoverned B stored L requests w h k =
    serve-OrgsAre B stored L IsGoverned IsGoverned-IsClosed requests w
      (AllAllow-IsGoverned requests h k)
