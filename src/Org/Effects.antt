-- ===== src/Org/Effects.antt =====
-- The two methods of Orgnazition that panic or read the clock, as actions.
use datafoundry_proxy.Base.{
  ◌≡◌, refl, Bool, true, false, List, [], ◌∷◌, Option, none, some, Str, str_eq, inl, inr, ◌⊎◌,
  arith, if◌then◌else◌,
}
use datafoundry_proxy.Types.{OrgMember, Orgnazition, org_member_status_joined}
use datafoundry_proxy.Effect.{pure, call}
use datafoundry_proxy.Effect.Ensures.{
  Ensures, Any, Ensures-pure, Ensures-panic, Ensures-bind, Ensures-if,
}
use datafoundry_proxy.Backend.{Backend}
use datafoundry_proxy.Org.{
  name_exists, removed, remove_from, remove_member, stamp, joined_rounds, member_joined,
}

-- `MemberJoined` changes a member to one of the same name and privilege, and changes its status, if
-- at all, to joined.
abbrev pub IsJoinedFrom : OrgMember → OrgMember → Type 0
IsJoinedFrom v v' =
    (v'.member_name ≡ v.member_name)
    × (v'.is_admin ≡ v.is_admin)
    × ((v'.status ≡ v.status) ⊎ (v'.status ≡ org_member_status_joined))

abbrev pub AreJoinedFrom : List OrgMember → List OrgMember → Type 0
AreJoinedFrom [] [] = Unit
AreJoinedFrom (v ∷ l) (v' ∷ l') = IsJoinedFrom v v' × AreJoinedFrom l l'
AreJoinedFrom _ _ = ⊥

module _ {W : Type 0} {P : W → Type 0} where
  Ensures-removed :
      (Q : Orgnazition → Type 0) (o : Orgnazition) (r : Option (List OrgMember))
      → ((l : List OrgMember) → r ≡ some l → Q (record o { member_list = l }))
      → Ensures P (removed o r) Q
  Ensures-removed Q o none h = Ensures-panic
  Ensures-removed Q o (some l) h = Ensures-pure _ (h l refl)

  pub Ensures-remove_member :
      (Q : Orgnazition → Type 0) (o : Orgnazition) (member : Str)
      → ((l : List OrgMember)
          → remove_from member o.member_list ≡ some l
          → Q (record o { member_list = l }))
      → Ensures P (remove_member o member) Q
  unfolding remove_member
  Ensures-remove_member Q o member h = Ensures-removed Q o (remove_from member o.member_list) h

module _ {W : Type 0} (B : Backend W) {P : W → Type 0}
    (now_keeps : Ensures P (call B.now) Any) where
  Ensures-stamp : (v : OrgMember) → Ensures P (stamp B v) (IsJoinedFrom v)
  unfolding stamp
  Ensures-stamp v = Ensures-bind Any _ _ now_keeps (λ t _. Ensures-pure _ (refl, refl, inr refl))

  Ensures-joined_rounds :
      (member : Str) (l : List OrgMember) → Ensures P (joined_rounds B member l) (AreJoinedFrom l)
  unfolding joined_rounds
  Ensures-joined_rounds member [] = Ensures-pure [] tt
  Ensures-joined_rounds member (v ∷ l) =
      Ensures-bind (IsJoinedFrom v) _ _
        (Ensures-if _ _ _ (λ _. Ensures-stamp v) (λ _. Ensures-pure v (refl, refl, inl refl)))
        (λ v' q.
          Ensures-bind (AreJoinedFrom l) _ _ (Ensures-joined_rounds member l)
            (λ l' q'. Ensures-pure _ (q, q')))

  pub Ensures-member_joined :
      (Q : Orgnazition → Type 0) (o : Orgnazition) (member : Str)
      → ((l : List OrgMember) → AreJoinedFrom o.member_list l → Q (record o { member_list = l }))
      → Ensures P (member_joined B o member) Q
  unfolding member_joined
  Ensures-member_joined Q o member h =
      Ensures-bind (AreJoinedFrom o.member_list) _ _ (Ensures-joined_rounds member o.member_list)
        (λ l q. Ensures-pure _ (h l q))

-- What the loop does to one member: a member of the name is stamped with the time, another one stays
-- as it is.
abbrev pub IsStamped : Str → OrgMember → OrgMember → Type 0
IsStamped name v v' =
    ((str_eq v.member_name name ≡ false) × (v' ≡ v))
    ⊎ ((str_eq v.member_name name ≡ true)
        × (time : Str) × (v' ≡ record v { status = org_member_status_joined; joined_at = time }))

abbrev pub AreStamped : Str → List OrgMember → List OrgMember → Type 0
AreStamped name [] [] = Unit
AreStamped name (v ∷ l) (v' ∷ l') = IsStamped name v v' × AreStamped name l l'
AreStamped name _ _ = ⊥

-- Where nobody has the name, nothing is stamped.
pub AreStamped-absent :
    (name : Str) (l l' : List OrgMember)
    → name_exists name l ≡ false
    → AreStamped name l l'
    → l' ≡ l
unfolding name_exists
AreStamped-absent name [] [] h s = refl
AreStamped-absent name [] (v ∷ l) h s = absurd s
AreStamped-absent name (v ∷ l) [] h s = absurd s
AreStamped-absent name (v ∷ l) (v' ∷ l') h s = elim s.0 [
  | inl (other, same) ↦ cc (same, AreStamped-absent name l l' (ground arith) s.1)
  | inr (hit, time, same) ↦ ground arith
]

module _ {W : Type 0} (B : Backend W) {P : W → Type 0}
    (now_keeps : Ensures P (call B.now) Any) where
  stamp-IsStamped :
      (name : Str) (v : OrgMember) (b : Bool)
      → str_eq v.member_name name ≡ b
      → Ensures P (if b then stamp B v else pure v) (IsStamped name v)
  unfolding stamp
  stamp-IsStamped name v true e =
      Ensures-bind Any _ _ now_keeps (λ t _. Ensures-pure _ (inr (e, t, refl)))
  stamp-IsStamped name v false e = Ensures-pure v (inl (e, refl))

  pub joined_rounds-AreStamped :
      (name : Str) (l : List OrgMember) → Ensures P (joined_rounds B name l) (AreStamped name l)
  unfolding joined_rounds
  joined_rounds-AreStamped name [] = Ensures-pure [] tt
  joined_rounds-AreStamped name (v ∷ l) =
      Ensures-bind (IsStamped name v) _ _ (stamp-IsStamped name v (str_eq v.member_name name) refl)
        (λ v' q.
          Ensures-bind (AreStamped name l) _ _ (joined_rounds-AreStamped name l)
            (λ l' q'. Ensures-pure _ (q, q')))

  -- `MemberJoined` changes the member list alone, and stamps the members of the name there.
  pub member_joined-AreStamped :
      (o : Orgnazition) (name : Str)
      → Ensures P (member_joined B o name) (λ o'.
        (l : List OrgMember) × AreStamped name o.member_list l
        × (o' ≡ record o { member_list = l }))
  unfolding member_joined
  member_joined-AreStamped o name =
      Ensures-bind (AreStamped name o.member_list) _ _ (joined_rounds-AreStamped name o.member_list)
        (λ l q. Ensures-pure _ (l, q, refl))
