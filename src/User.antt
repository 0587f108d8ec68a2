-- ===== src/User.antt =====
-- user.go: the methods of UserInfo on its list of organizations, and, in the modules below, those
-- that work on organizations and on the account.
pub mod Account
pub mod Organizations
pub mod Lists
use datafoundry_proxy.Base.{Bool, true, false, List, [], ◌∷◌, ◌++◌, Str, str_eq, if◌then◌else◌}
use datafoundry_proxy.Types.{OrgBrief, UserInfo, Orgnazition}

org_name_in : Str → List OrgBrief → Bool
org_name_in name [] = false
org_name_in name (org ∷ l) = if str_eq org.org_name name then true else org_name_in name l

-- `CheckIfOrgExist`
unfoldable pub check_if_org_exist : UserInfo → Str → Bool
unfolding org_name_in
check_if_org_exist usr org_name = org_name_in org_name usr.org_list

unfoldable pub org_id_in : Str → List OrgBrief → Bool
org_id_in id [] = false
org_id_in id (org ∷ l) = if str_eq org.org_id id then true else org_id_in id l

-- `CheckIfOrgExistByID`
unfoldable pub check_if_org_exist_by_id : UserInfo → Str → Bool
unfolding org_id_in
check_if_org_exist_by_id usr id = org_id_in id usr.org_list

-- The list with its first element of this id cut out: the loop returns at the first match.
delete_brief : Str → List OrgBrief → List OrgBrief
delete_brief id [] = []
delete_brief id (org ∷ l) = if str_eq org.org_id id then l else org ∷ delete_brief id l

-- `DeleteOrgFromList`
unfoldable pub delete_org_from_list : UserInfo → Str → UserInfo
unfolding delete_brief
delete_org_from_list usr id = record usr { org_list = delete_brief id usr.org_list }

-- `AddOrgToList`. The source compares `org.ID == b.OrgID`.
unfoldable pub add_org_to_list : UserInfo → Orgnazition → UserInfo
unfolding org_id_in
add_org_to_list usr org = if org_id_in org.id usr.org_list then usr else record usr {
  org_list = usr.org_list ++ record { org_id = org.id; org_name = org.name; org_alias = [] } ∷ [];
}
