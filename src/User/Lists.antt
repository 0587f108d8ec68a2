-- ===== src/User/Lists.antt =====
-- The list of a user's organizations: which ids are in it after each change.
use datafoundry_proxy.Base.{
  ◌≡◌, refl, true, false, List, [], ◌∷◌, ◌++◌, Str, str_eq, str_eq_iff, arith, if◌then◌else◌,
}
use datafoundry_proxy.Types.{OrgBrief, UserInfo, Orgnazition}
use datafoundry_proxy.User.{
  org_id_in, check_if_org_exist_by_id, delete_brief, delete_org_from_list, add_org_to_list,
}

-- No two entries have one id.
abbrev pub UniqueIds : List OrgBrief → Type 0
UniqueIds [] = Unit
UniqueIds (b ∷ l) = (org_id_in b.org_id l ≡ false) × UniqueIds l

pub org_id_in-append :
    (id : Str) (l : List OrgBrief) (b : OrgBrief)
    → org_id_in id (l ++ b ∷ []) ≡ (if str_eq b.org_id id then true else org_id_in id l)
unfolding org_id_in
org_id_in-append id [] b = ground arith
org_id_in-append id (c ∷ l) b = ground (arith, org_id_in-append id l b)

-- After `AddOrgToList` the list has the organization and whatever it had before, and nothing else.
pub exist-add_org_to_list :
    (usr : UserInfo) (org : Orgnazition) (id : Str)
    → check_if_org_exist_by_id (add_org_to_list usr org) id
      ≡ (if str_eq org.id id then true else check_if_org_exist_by_id usr id)
unfolding check_if_org_exist_by_id add_org_to_list
exist-add_org_to_list usr org id = ground (
  arith,
  str_eq_iff org.id id,
  org_id_in-append id usr.org_list
      (record { org_id = org.id; org_name = org.name; org_alias = [] }),
)

delete_brief-other :
    (id j : Str) (l : List OrgBrief)
    → str_eq id j ≡ false
    → org_id_in j (delete_brief id l) ≡ org_id_in j l
unfolding org_id_in delete_brief
delete_brief-other id j [] h = refl
delete_brief-other id j (b ∷ l) h = ground (
  arith,
  delete_brief-other id j l,
  str_eq_iff b.org_id id,
  str_eq_iff b.org_id j,
  str_eq_iff id j,
)

delete_brief_self :
    (id : Str) (l : List OrgBrief) → UniqueIds l → org_id_in id (delete_brief id l) ≡ false
unfolding org_id_in delete_brief
delete_brief_self id [] u = refl
delete_brief_self id (b ∷ l) u = ground (arith, delete_brief_self id l u.1, str_eq_iff b.org_id id)

-- On a list of unique ids `DeleteOrgFromList` removes the organization of that id and no other.
pub exist-delete_org_from_list :
    (usr : UserInfo) (id j : Str)
    → UniqueIds usr.org_list
    → check_if_org_exist_by_id (delete_org_from_list usr id) j
      ≡ (if str_eq id j then false else check_if_org_exist_by_id usr j)
unfolding check_if_org_exist_by_id delete_org_from_list
exist-delete_org_from_list usr id j u = ground (
  arith,
  str_eq_iff id j,
  delete_brief-other id j usr.org_list,
  delete_brief_self id usr.org_list u,
)

delete_brief-UniqueIds :
    (id : Str) (l : List OrgBrief) → UniqueIds l → UniqueIds (delete_brief id l)
unfolding delete_brief
delete_brief-UniqueIds id [] u = tt
delete_brief-UniqueIds id (b ∷ l) u = ground (
  arith,
  delete_brief-UniqueIds id l u.1,
  delete_brief-other id b.org_id l,
  str_eq_iff b.org_id id,
  str_eq_iff id b.org_id,
)

org_id_in-append_unique :
    (l : List OrgBrief) (b : OrgBrief)
    → UniqueIds l
    → org_id_in b.org_id l ≡ false
    → UniqueIds (l ++ b ∷ [])
unfolding org_id_in
org_id_in-append_unique [] b u h = (refl, tt)
org_id_in-append_unique (c ∷ l) b u h = ground (
  arith,
  org_id_in-append_unique l b u.1,
  org_id_in-append c.org_id l b,
  str_eq_iff c.org_id b.org_id,
  str_eq_iff b.org_id c.org_id,
)

-- `AddOrgToList` and `DeleteOrgFromList` keep the ids of the list unique.
pub lists-UniqueIds :
    (usr : UserInfo) (org : Orgnazition) (id : Str)
    → UniqueIds usr.org_list
    → UniqueIds (add_org_to_list usr org).org_list
      × UniqueIds (delete_org_from_list usr id).org_list
unfolding add_org_to_list delete_org_from_list
lists-UniqueIds usr org id u = (
  ground (
    arith,
    org_id_in-append_unique usr.org_list
        (record { org_id = org.id; org_name = org.name; org_alias = [] }) u,
  ),
  delete_brief-UniqueIds id usr.org_list u,
)
