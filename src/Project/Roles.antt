-- ===== src/Project/Roles.antt =====
-- Who is in which role of an organization's project.
use datafoundry_proxy.Base.{
  ◌≡◌, refl, Bool, true, false, not, List, [], ◌∷◌, Str, str_eq, arith, ◌&&◌, if◌then◌else◌,
  Bool-cases, inl, inr,
}
use datafoundry_proxy.Types.{OrgMember, Orgnazition}
use datafoundry_proxy.Org.{is_admin_loop, is_admin, name_exists, is_member_exist}
use datafoundry_proxy.Org.Members.{UniqueNames, HasUniqueNames, absent_in_tail}
use datafoundry_proxy.Project.{names_of, role_of}

abbrev pub has_name : Str → List Str → Bool
has_name name [] = false
has_name name (n ∷ l) = if str_eq n name then true else has_name name l

admins_lem : (u : Str) (l : List OrgMember) → has_name u (names_of true l) ≡ is_admin_loop u l
unfolding names_of is_admin_loop
admins_lem u [] = refl
admins_lem u (m ∷ l) = ground (arith, admins_lem u l)

absent-admins : (u : Str) (l : List OrgMember) → name_exists u l ≡ false → is_admin_loop u l ≡ false
unfolding name_exists is_admin_loop
absent-admins u [] h = refl
absent-admins u (m ∷ l) h = ground (arith, absent-admins u l)

absent-others :
    (u : Str) (l : List OrgMember) → name_exists u l ≡ false → has_name u (names_of false l) ≡ false
unfolding name_exists names_of
absent-others u [] h = refl
absent-others u (m ∷ l) h = ground (arith, absent-others u l)

others_lem :
    (u : Str) (l : List OrgMember)
    → UniqueNames l
    → has_name u (names_of false l) ≡ (name_exists u l && not (is_admin_loop u l))
unfolding names_of is_admin_loop name_exists
others_lem u [] h = refl
others_lem u (m ∷ l) h = elim (Bool-cases (str_eq m.member_name u)) [
  | inl same ↦ ground (
    arith,
    absent-others u l (absent_in_tail u m l h same),
    absent-admins u l (absent_in_tail u m l h same),
  )
  | inr other ↦ ground (arith, others_lem u l h.1)
]

-- Where no two members share a name: the subjects of the role "admin" are the members of whom
-- `IsAdmin` holds, and those of the role "edit" are the other members, so that every member has
-- exactly one of the roles and no one else has any.
pub role_of-subjects :
    (admin edit : Str) (o : Orgnazition) (member : OrgMember)
    → HasUniqueNames o
    → (has_name member.member_name (role_of true admin o).subjects ≡ is_admin o member.member_name)
      × (has_name member.member_name (role_of false edit o).subjects
          ≡ (is_member_exist o member && not (is_admin o member.member_name)))
unfolding role_of is_admin is_member_exist
role_of-subjects admin edit o member unique = (
  admins_lem member.member_name o.member_list,
  others_lem member.member_name o.member_list unique,
)
