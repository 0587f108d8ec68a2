-- ===== src/Org/WellFormed.antt =====
-- Well-formed member lists, and the changes that keep them so: unique names, and an admin that has
-- joined.
use datafoundry_proxy.Base.{
  ◌+◌, ◌≤◌, ◌<◌, ◌≡◌, refl, ◌∙◌, subst, Bool, true, false, ◌&&◌, List, [], ◌∷◌, ◌++◌, some, Str,
  str_eq, str_eq_iff, str_eq_refl, arith, Bool-cases, Option-cases, inl, inr, if◌then◌else◌,
}
use datafoundry_proxy.Types.{OrgMember, org_member_status_joined}
use datafoundry_proxy.Org.{name_exists, remove_from, set_privilege, privileged_in}
use datafoundry_proxy.Org.Members.{
  without, UniqueNames, joined_admin, joined_admins, without-UniqueNames, without-absent,
  absent_in_tail,
}
use datafoundry_proxy.Org.Remove.{remove_from-without}
use datafoundry_proxy.Org.Effects.{AreJoinedFrom}

-- A member of this name that is an admin and has joined.
abbrev pub joined_admin_named : Str → List OrgMember → Bool
joined_admin_named u [] = false
joined_admin_named u (m ∷ l) =
    if str_eq m.member_name u && joined_admin m then true else joined_admin_named u l

pub remove_from-UniqueNames :
    (name : Str) (l : List OrgMember) {l' : List OrgMember}
    → UniqueNames l
    → remove_from name l ≡ some l'
    → UniqueNames l'
remove_from-UniqueNames name l {l'} u e =
    subst UniqueNames (cc (remove_from-without name l u)) (without-UniqueNames name l u)

AreJoinedFrom-name_exists :
    (name : Str) (l l' : List OrgMember)
    → AreJoinedFrom l l'
    → name_exists name l' ≡ name_exists name l
unfolding name_exists
AreJoinedFrom-name_exists name [] [] h = refl
AreJoinedFrom-name_exists name [] (v ∷ l) h = absurd h
AreJoinedFrom-name_exists name (v ∷ l) [] h = absurd h
AreJoinedFrom-name_exists name (v ∷ l) (v' ∷ l') h =
    ground (arith, AreJoinedFrom-name_exists name l l' h.1)

pub AreJoinedFrom-UniqueNames :
    (l l' : List OrgMember) → AreJoinedFrom l l' → UniqueNames l → UniqueNames l'
AreJoinedFrom-UniqueNames [] [] h u = tt
AreJoinedFrom-UniqueNames [] (v ∷ l) h u = absurd h
AreJoinedFrom-UniqueNames (v ∷ l) [] h u = absurd h
AreJoinedFrom-UniqueNames (v ∷ l) (v' ∷ l') h u = (
  rw (h.0.0) (AreJoinedFrom-name_exists v.member_name l l' h.1 ∙ u.0),
  AreJoinedFrom-UniqueNames l l' h.1 u.1,
)

pub AreJoinedFrom-joined_admins :
    (l l' : List OrgMember) → AreJoinedFrom l l' → joined_admins l ≤ joined_admins l'
AreJoinedFrom-joined_admins [] [] h = omega arith
AreJoinedFrom-joined_admins [] (v ∷ l) h = absurd h
AreJoinedFrom-joined_admins (v ∷ l) [] h = absurd h
AreJoinedFrom-joined_admins (v ∷ l) (v' ∷ l') h =
    ground (arith, AreJoinedFrom-joined_admins l l' h.1, str_eq_refl org_member_status_joined)

name_exists-append :
    (name : Str) (l : List OrgMember) (m : OrgMember)
    → name_exists name (l ++ m ∷ [])
      ≡ (if str_eq m.member_name name then true else name_exists name l)
unfolding name_exists
name_exists-append name [] m = ground arith
name_exists-append name (v ∷ l) m = ground (arith, name_exists-append name l m)

pub append-UniqueNames :
    (l : List OrgMember) (m : OrgMember)
    → UniqueNames l
    → name_exists m.member_name l ≡ false
    → UniqueNames (l ++ m ∷ [])
unfolding name_exists
append-UniqueNames [] m u h = (refl, tt)
append-UniqueNames (v ∷ l) m u h = ground (
  arith,
  append-UniqueNames l m u.1,
  name_exists-append v.member_name l m,
  str_eq_iff v.member_name m.member_name,
  str_eq_iff m.member_name v.member_name,
)

pub one-UniqueNames : (m : OrgMember) → UniqueNames (m ∷ [])
unfolding name_exists
one-UniqueNames m = (refl, tt)

pub joined_admins-append :
    (l : List OrgMember) (m : OrgMember)
    → joined_admins (l ++ m ∷ []) ≡ joined_admins l + (if joined_admin m then 1 else 0)
joined_admins-append [] m = ground arith
joined_admins-append (v ∷ l) m = ground (arith, joined_admins-append l m)

set_privilege-name_exists :
    (name other by : Str) (admin : Bool) (l : List OrgMember) {l' : List OrgMember}
    → set_privilege name admin by l ≡ some l'
    → name_exists other l' ≡ name_exists other l
unfolding name_exists set_privilege
set_privilege-name_exists name other by admin [] e = cc
set_privilege-name_exists name other by admin (v ∷ l) e =
    elim (Option-cases (set_privilege name admin by l)) [
      | inl nobody ↦ ground arith
      | inr (r, found) ↦ ground (arith, set_privilege-name_exists name other by admin l found)
    ]

set_privilege-UniqueNames :
    (name by : Str) (admin : Bool) (l : List OrgMember) {l' : List OrgMember}
    → set_privilege name admin by l ≡ some l'
    → UniqueNames l
    → UniqueNames l'
unfolding set_privilege
set_privilege-UniqueNames name by admin [] e u = cc
set_privilege-UniqueNames name by admin (v ∷ l) e u =
    elim (Option-cases (set_privilege name admin by l)) [
      | inl nobody ↦ ground arith
      | inr (r, found) ↦ ground (
        arith,
        set_privilege-UniqueNames name by admin l found,
        set_privilege-name_exists name v.member_name by admin l found,
      )
    ]

pub privileged_in-UniqueNames :
    (name by : Str) (admin : Bool) (l : List OrgMember) {l' : List OrgMember}
    → privileged_in name admin by l ≡ some l'
    → UniqueNames l
    → UniqueNames l'
unfolding privileged_in
privileged_in-UniqueNames name by admin l e u = set_privilege-UniqueNames name by admin l e u

joined_admin_named-without :
    (u name : Str) (l : List OrgMember)
    → str_eq u name ≡ false
    → joined_admin_named u l ≡ true
    → 0 < joined_admins (without name l)
joined_admin_named-without u name [] h e = cc
joined_admin_named-without u name (v ∷ l) h e = ground (
  arith,
  joined_admin_named-without u name l,
  str_eq_iff v.member_name u,
  str_eq_iff v.member_name name,
  str_eq_iff u name,
)

-- On a list of unique names, if `RemoveMember` removes one name while a member of another name is an
-- admin that has joined, an admin that has joined is left.
pub remove_from-HasJoinedAdmin :
    (u name : Str) (l : List OrgMember) {l' : List OrgMember}
    → UniqueNames l
    → str_eq u name ≡ false
    → joined_admin_named u l ≡ true
    → remove_from name l ≡ some l'
    → 0 < joined_admins l'
remove_from-HasJoinedAdmin u name l {l'} uniq h a e =
    subst (λ r. 0 < joined_admins r) {x = without name l} {y = l'}
      (cc (remove_from-without name l uniq)) (joined_admin_named-without u name l h a)

joined_admin_named-absent :
    (name : Str) (l : List OrgMember)
    → name_exists name l ≡ false
    → joined_admin_named name l ≡ false
unfolding name_exists
joined_admin_named-absent name [] h = refl
joined_admin_named-absent name (v ∷ l) h = ground (arith, joined_admin_named-absent name l)

-- A joined admin of a unique name is one less without it.
pub joined_admins-without_named :
    (name : Str) (l : List OrgMember)
    → UniqueNames l
    → joined_admin_named name l ≡ true
    → joined_admins l ≡ joined_admins (without name l) + 1
joined_admins-without_named name [] u h = cc
joined_admins-without_named name (v ∷ l) u h = elim (Bool-cases (str_eq v.member_name name)) [
  | inl same ↦
      let gone = absent_in_tail name v l u same in
      ground (arith, without-absent name l gone, joined_admin_named-absent name l gone)
  | inr other ↦ ground (arith, joined_admins-without_named name l u.1)
]
