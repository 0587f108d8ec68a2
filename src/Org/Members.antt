-- ===== src/Org/Members.antt =====
-- What a member list is for the proofs: who is in it, whose names are unique, and how many of its
-- members are admins that have joined.
use datafoundry_proxy.Base.{
  ℕ, ◌+◌, ◌<◌, ◌≡◌, refl, subst, Bool, true, false, ◌&&◌, List, [], ◌∷◌, Str, str_eq, str_eq_iff,
  arith, if◌then◌else◌,
}
use datafoundry_proxy.Types.{OrgMember, Orgnazition, org_member_status_joined}
use datafoundry_proxy.Org.{name_exists}

-- The members with another name.
abbrev pub without : Str → List OrgMember → List OrgMember
without name [] = []
without name (v ∷ l) = if str_eq v.member_name name then without name l else v ∷ without name l

-- No two members share a name.
abbrev pub UniqueNames : List OrgMember → Type 0
UniqueNames [] = Unit
UniqueNames (v ∷ l) = (name_exists v.member_name l ≡ false) × UniqueNames l

abbrev pub HasUniqueNames : Orgnazition → Type 0
HasUniqueNames o = UniqueNames o.member_list

-- An admin that has joined, as `IsLastAdmin` counts them.
abbrev pub joined_admin : OrgMember → Bool
joined_admin m = m.is_admin && str_eq m.status org_member_status_joined

abbrev pub joined_admins : List OrgMember → ℕ
joined_admins [] = 0
joined_admins (m ∷ l) = if joined_admin m then joined_admins l + 1 else joined_admins l

abbrev pub HasJoinedAdmin : Orgnazition → Type 0
HasJoinedAdmin o = 0 < joined_admins o.member_list

-- A name that the first member has no other member has.
pub absent_in_tail :
    (name : Str) (v : OrgMember) (l : List OrgMember)
    → UniqueNames (v ∷ l)
    → str_eq v.member_name name ≡ true
    → name_exists name l ≡ false
absent_in_tail name v l u same =
    subst (λ n. name_exists n l ≡ false) ((str_eq_iff v.member_name name).0 same) u.0

-- A name that is not in the list is of none of its members.
pub without-absent :
    (name : Str) (l : List OrgMember) → name_exists name l ≡ false → without name l ≡ l
unfolding name_exists
without-absent name [] h = refl
without-absent name (v ∷ l) h = ground (arith, without-absent name l)

pub name_exists-without :
    (a b : Str) (l : List OrgMember) → name_exists a l ≡ false → name_exists a (without b l) ≡ false
unfolding name_exists
name_exists-without a b [] h = refl
name_exists-without a b (v ∷ l) h = ground (arith, name_exists-without a b l)

pub without-UniqueNames :
    (name : Str) (l : List OrgMember) → UniqueNames l → UniqueNames (without name l)
without-UniqueNames name [] u = tt
without-UniqueNames name (v ∷ l) u =
    ground (arith, without-UniqueNames name l u.1, name_exists-without v.member_name name l u.0)

pub name_exists-without_self :
    (name : Str) (l : List OrgMember) → name_exists name (without name l) ≡ false
unfolding name_exists
name_exists-without_self name [] = refl
name_exists-without_self name (v ∷ l) = ground (arith, name_exists-without_self name l)
