-- ===== src/Org.antt =====
-- organization.go: the methods of Orgnazition that look at or change its member list.
pub mod Members
pub mod Remove
pub mod Duplicates
pub mod Admins
pub mod Effects
pub mod WellFormed
use datafoundry_proxy.Base.{
  ℕ, zero, suc, ◌+◌, ◌-◌, Bool, true, false, ◌&&◌, ◌||◌, List, [], ◌∷◌, ◌++◌, Option, none, some,
  Str, str_eq, leb, ◌==◌, length, get_elem?, take, drop, if◌then◌else◌,
}
use datafoundry_proxy.Types.{
  OrgMember, Orgnazition, org_member_status_joined, org_member_status_none,
}
use datafoundry_proxy.Effect.{M, pure, panic, call, ◌>>=◌}
use datafoundry_proxy.Backend.{Backend}

unfoldable pub is_admin_loop : Str → List OrgMember → Bool
is_admin_loop username [] = false
is_admin_loop username (member ∷ l) =
    if str_eq member.member_name username && member.is_admin then true else is_admin_loop username l

unfoldable pub is_admin : Orgnazition → Str → Bool
unfolding is_admin_loop
is_admin o username = is_admin_loop username o.member_list

-- The loop of `IsLastAdmin` on its two variables, isAdmin and adminCnt.
last_admin_loop : Str → Bool → ℕ → List OrgMember → Bool × ℕ
last_admin_loop username admin cnt [] = (admin, cnt)
last_admin_loop username admin cnt (member ∷ l) =
    last_admin_loop username
      (if str_eq member.member_name username && member.is_admin then true else admin)
      (if member.is_admin && str_eq member.status org_member_status_joined then cnt + 1 else cnt) l

unfoldable pub is_last_admin : Orgnazition → Str → Bool
unfolding last_admin_loop
is_last_admin o username =
    let (admin, cnt) = last_admin_loop username false 0 o.member_list in admin && cnt == 1

unfoldable pub name_exists : Str → List OrgMember → Bool
name_exists name [] = false
name_exists name (v ∷ l) = if str_eq v.member_name name then true else name_exists name l

unfoldable pub is_member_exist : Orgnazition → OrgMember → Bool
unfolding name_exists
is_member_exist o member = name_exists member.member_name o.member_list

joined_loop : ℕ → List OrgMember → ℕ
joined_loop cnt [] = cnt
joined_loop cnt (v ∷ l) =
    joined_loop (if str_eq v.status org_member_status_joined then cnt + 1 else cnt) l

unfoldable pub joined_member_cnt : Orgnazition → ℕ
unfolding joined_loop
joined_member_cnt o = joined_loop 0 o.member_list

status_loop : Str → List OrgMember → Str
status_loop name [] = org_member_status_none
status_loop name (v ∷ l) = if str_eq v.member_name name then v.status else status_loop name l

unfoldable pub member_status : Orgnazition → OrgMember → Str
unfolding status_loop
member_status o member = status_loop member.member_name o.member_list

-- A Go slice whose array starts at its first element: the array, and the slice's length.
abbrev pub Slice : Type 0
Slice = List OrgMember × ℕ

-- `append(s[:idx], s[idx+1:]...)` in place: the elements behind idx move to the front, and what
-- lies behind the new end of the slice stays in the array.
pub cut : ℕ → Slice → Slice
cut idx (arr, len) =
    (take idx arr ++ (drop (idx + 1) (take len arr) ++ drop (len - 1) arr), len - 1)

-- One round of `RemoveMember`. The loop ranges over the slice as it was at first, so idx can have
-- passed the end of the slice as it is now: then `s[idx+1:]` is out of range, and panics (`none`).
pub remove_round : Str → ℕ → Slice → Option Slice
remove_round member idx (arr, len) = elim (get_elem? arr idx) [
  | none ↦ none
  | some v ↦
      if str_eq v.member_name member
      then if leb (idx + 1) len then some (cut idx (arr, len)) else none
      else some (arr, len)
]

-- The rounds that are left, and the index of the next one.
pub remove_loop : Str → ℕ → ℕ → Slice → Option Slice
remove_loop member zero idx s = some s
remove_loop member (suc rounds) idx s = elim (remove_round member idx s) [
  | none ↦ none
  | some s' ↦ remove_loop member rounds (idx + 1) s'
]

-- The elements of a slice.
abbrev elements : Slice → List OrgMember
elements (arr, len) = take len arr

-- The loop over the whole list; `none` is a panic.
unfoldable pub remove_from : Str → List OrgMember → Option (List OrgMember)
unfolding remove_loop remove_round cut
remove_from member l = elim (remove_loop member (length l) 0 (l, length l)) [
  | none ↦ none
  | some s ↦ some (elements s)
]

module _ {W : Type 0} where
  abbrev pub removed : Orgnazition → Option (List OrgMember) → M W Orgnazition
  removed o none = panic
  removed o (some l) = pure (record o { member_list = l })

  unfoldable pub remove_member : Orgnazition → Str → M W Orgnazition
  unfolding remove_from
  remove_member o member = removed o (remove_from member o.member_list)

module _ {W : Type 0} (B : Backend W) where
  -- The assignments to one member, with the time of the call.
  pub stamp : OrgMember → M W OrgMember
  stamp v = do t ← call B.now; pure (record v { status = org_member_status_joined; joined_at = t })

  pub joined_rounds : Str → List OrgMember → M W (List OrgMember)
  joined_rounds member [] = pure []
  joined_rounds member (v ∷ l) = do
    v' ← (if str_eq v.member_name member then stamp v else pure v)
    l' ← joined_rounds member l
    pure (v' ∷ l')

  unfoldable pub member_joined : Orgnazition → Str → M W Orgnazition
  unfolding stamp joined_rounds
  member_joined o member = do
    l ← joined_rounds member o.member_list
    pure (record o { member_list = l })

-- The loop of `OrgPrivilege` up to its first match: the two assignments, or `none` if no member
-- has the name.
set_privilege : Str → Bool → Str → List OrgMember → Option (List OrgMember)
set_privilege name admin by [] = none
set_privilege name admin by (v ∷ l) =
    let rest = set_privilege name admin by l in
    if str_eq v.member_name name
    then some (record v { is_admin = admin; privileged_by = by } ∷ l)
    else elim rest [ none ↦ none | some l' ↦ some (v ∷ l') ]

unfoldable pub privileged_in : Str → Bool → Str → List OrgMember → Option (List OrgMember)
unfolding set_privilege
privileged_in name admin by l = set_privilege name admin by l
