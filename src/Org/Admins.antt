-- ===== src/Org/Admins.antt =====
-- Who may leave: the admins of an organization, as its methods count them.
use datafoundry_proxy.Base.{
  ℕ, ◌+◌, ◌<◌, ◌≤◌, ◌≡◌, refl, Bool, true, false, ◌&&◌, List, [], ◌∷◌, Str, str_eq, arith,
  Bool-cases, Option-cases, inl, inr, some, if◌then◌else◌, ◌↔◌,
}
use datafoundry_proxy.Types.{OrgMember, Orgnazition, org_member_status_joined}
use datafoundry_proxy.Org.{
  name_exists, is_admin_loop, is_admin, last_admin_loop, is_last_admin, set_privilege,
  privileged_in,
}
use datafoundry_proxy.Org.Members.{
  without, UniqueNames, joined_admins, HasUniqueNames, HasJoinedAdmin, without-absent,
  absent_in_tail,
}

-- The loop collects what `IsAdmin` answers and the number of joined admins.
last_admin_loop_lem :
    (u : Str) (admin : Bool) (cnt : ℕ) (l : List OrgMember)
    → last_admin_loop u admin cnt l
      ≡ ((if admin then true else is_admin_loop u l), cnt + joined_admins l)
unfolding last_admin_loop is_admin_loop
last_admin_loop_lem u admin cnt [] = ground arith
last_admin_loop_lem u admin cnt (m ∷ l) = ground (
  arith,
  last_admin_loop_lem u (if str_eq m.member_name u && m.is_admin then true else admin)
      (if m.is_admin && str_eq m.status org_member_status_joined then cnt + 1 else cnt) l,
)

-- `IsLastAdmin` holds of a user exactly when the user is an admin, whether joined or only invited,
-- and the organization has exactly one admin that has joined.
pub is_last_admin_iff :
    (o : Orgnazition) (u : Str)
    → (is_last_admin o u ≡ true) ↔ ((is_admin o u ≡ true) × (joined_admins o.member_list ≡ 1))
unfolding is_last_admin is_admin
is_last_admin_iff o u = ground (arith, last_admin_loop_lem u false 0 o.member_list)

is_admin_loop-false :
    (u : Str) (l : List OrgMember) → name_exists u l ≡ false → is_admin_loop u l ≡ false
unfolding is_admin_loop name_exists
is_admin_loop-false u [] h = refl
is_admin_loop-false u (m ∷ l) h = ground (arith, is_admin_loop-false u l)

-- Of unique names at most one is removed, and so at most one joined admin, which then is an admin
-- of that name.
joined_admins-without :
    (u : Str) (l : List OrgMember)
    → UniqueNames l
    → joined_admins l ≤ joined_admins (without u l) + (if is_admin_loop u l then 1 else 0)
unfolding is_admin_loop
joined_admins-without u [] h = omega arith
joined_admins-without u (m ∷ l) h = elim (Bool-cases (str_eq m.member_name u)) [
  | inl same ↦ ground (arith, without-absent u l (absent_in_tail u m l h same))
  | inr other ↦ ground (arith, joined_admins-without u l h.1)
]

joined_admins-privileged :
    (u : Str) (admin : Bool) (by : Str) (l l' : List OrgMember)
    → UniqueNames l
    → set_privilege u admin by l ≡ some l'
    → joined_admins l ≤ joined_admins l' + (if is_admin_loop u l then 1 else 0)
unfolding is_admin_loop set_privilege
joined_admins-privileged u admin by [] l' h e = cc
joined_admins-privileged u admin by (m ∷ l) l' h e =
    elim (Option-cases (set_privilege u admin by l)) [
      | inl none_there ↦ ground arith
      | inr (r, found) ↦ ground (arith, joined_admins-privileged u admin by l r h.1 found)
    ]

-- `OrgLeave` and `OrgRemoveMember`: where the user is not the last admin, a joined admin stays.
pub without-HasJoinedAdmin :
    (o : Orgnazition) (u : Str)
    → HasUniqueNames o
    → HasJoinedAdmin o
    → is_last_admin o u ≡ false
    → 0 < joined_admins (without u o.member_list)
unfolding is_last_admin
without-HasJoinedAdmin o u uniq some_admin h =
    ground (
      arith,
      last_admin_loop_lem u false 0 o.member_list,
      joined_admins-without u o.member_list uniq,
    )

-- `OrgPrivilege`: the same for a change of the privilege of one member.
pub privileged-HasJoinedAdmin :
    (o : Orgnazition) (u : Str) (admin : Bool) (by : Str) {l : List OrgMember}
    → HasUniqueNames o
    → HasJoinedAdmin o
    → is_last_admin o u ≡ false
    → privileged_in u admin by o.member_list ≡ some l
    → 0 < joined_admins l
unfolding is_last_admin privileged_in
privileged-HasJoinedAdmin o u admin by {l} uniq some_admin h e = ground (
  arith,
  last_admin_loop_lem u false 0 o.member_list,
  joined_admins-privileged u admin by o.member_list l uniq e,
)
