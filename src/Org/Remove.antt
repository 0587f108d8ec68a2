-- ===== src/Org/Remove.antt =====
-- `RemoveMember` against its specification: it edits the array that it ranges over.
use datafoundry_proxy.Base.{
  ℕ, zero, suc, ◌+◌, ◌-◌, ◌≤◌, ◌≡◌, refl, sym, ap, ◌∙◌, true, false, List, [], ◌∷◌, ◌++◌,
  append_assoc, some, Str, str_eq, arith, length, get_elem?, drop, All, All-append, All-drop,
  length-append, take-all, take-append, drop-append_add, length-drop, get_elem?-append, Bool-cases,
  inl, inr,
}
use datafoundry_proxy.Types.{OrgMember}
use datafoundry_proxy.Org.{name_exists, cut, remove_round, remove_loop, elements, remove_from}
use datafoundry_proxy.Org.Members.{without, UniqueNames, without-absent, absent_in_tail}

-- Of another member than the one to remove.
abbrev IsOther : Str → OrgMember → Type 0
IsOther member v = str_eq v.member_name member ≡ false

-- A name that is not in the list: all its members are others.
IsOther-absent :
    (member : Str) (l : List OrgMember) → name_exists member l ≡ false → All (IsOther member) l
unfolding name_exists
IsOther-absent member [] h = tt
IsOther-absent member (v ∷ l) h = ground (arith, IsOther-absent member l)

-- One round, by the element that it meets.
pub round-other :
    (member : Str) (idx : ℕ) (arr : List OrgMember) (len : ℕ) {v : OrgMember}
    → get_elem? arr idx ≡ some v
    → IsOther member v
    → remove_round member idx (arr, len) ≡ some (arr, len)
unfolding remove_round
round-other member idx arr len g h = ground arith

pub round-match :
    (member : Str) (idx : ℕ) (arr : List OrgMember) (len : ℕ) {v : OrgMember}
    → get_elem? arr idx ≡ some v
    → str_eq v.member_name member ≡ true
    → idx + 1 ≤ len
    → remove_round member idx (arr, len) ≡ some (cut idx (arr, len))
unfolding remove_round
round-match member idx arr len g h k = ground arith

pub remove_loop-round :
    (member : Str) (rounds idx : ℕ) (s s' : List OrgMember × ℕ)
    → remove_round member idx s ≡ some s'
    → remove_loop member (suc rounds) idx s ≡ remove_loop member rounds (idx + 1) s'
unfolding remove_loop
remove_loop-round member rounds idx s s' h = ground arith

-- Rounds that meet no match change nothing.
remove_loop-IsOther :
    (member : Str) (rounds idx : ℕ) (pre post : List OrgMember) (len : ℕ)
    → idx ≡ length pre
    → rounds ≤ length post
    → All (IsOther member) post
    → remove_loop member rounds idx (pre ++ post, len) ≡ some (pre ++ post, len)
unfolding remove_loop
remove_loop-IsOther member zero idx pre post len i e h = refl
remove_loop-IsOther member (suc rounds) idx pre [] len i e h = elim e [ ]
remove_loop-IsOther member (suc rounds) idx pre (v ∷ post) len i e h =
    let here : get_elem? (pre ++ v ∷ post) idx ≡ some v = rw i (get_elem?-append pre v post) in
    let rest =
      remove_loop-IsOther member rounds (idx + 1) (pre ++ v ∷ []) post len
        (omega (arith, length-append pre (v ∷ []))) (omega arith) h.1 in
    remove_loop-round member rounds idx _ _ (round-other member idx _ len here h.0)
    ∙ (rw append_assoc at rest)

-- What the cut leaves in the array: the last element stands there twice.
cut_lem :
    (pre : List OrgMember) (v : OrgMember) (post : List OrgMember)
    → cut (length pre) (pre ++ v ∷ post, length (pre ++ v ∷ post))
      ≡ (pre ++ (post ++ drop (length post) (v ∷ post)), length (pre ++ post))
unfolding cut
cut_lem pre v post =
    let size : length (pre ++ v ∷ post) - 1 ≡ length pre + length post =
      omega (arith, length-append pre (v ∷ post)) in
    let size' : length pre + length post ≡ length (pre ++ post) = sym (length-append pre post) in
    rw (
      take-append pre (v ∷ post),
      take-all (length (pre ++ v ∷ post)) (pre ++ v ∷ post) (omega arith),
      drop-append_add pre 1 (v ∷ post),
      size,
      drop-append_add pre (length post) (v ∷ post),
      size',
    )

-- The round that finds the member, and the rounds after it.
remove_loop-match :
    (member : Str) (pre : List OrgMember) (v : OrgMember) (post : List OrgMember)
    → str_eq v.member_name member ≡ true
    → All (IsOther member) post
    → (s : List OrgMember × ℕ) × (remove_loop member
          (suc (length post))
          (length pre)
          (pre ++ v ∷ post, length (pre ++ v ∷ post))
        ≡ some s)
      × (elements s ≡ pre ++ post)
remove_loop-match member pre v post e h = (
  s,
  remove_loop-round member (length post) (length pre) _ _ found
      ∙ ap (λ t. remove_loop member (length post) (length pre + 1) t) (cut_lem pre v post)
      ∙ rest post h,
  rw (← append_assoc) (take-append (pre ++ post) (drop (length post) (v ∷ post))),
)
  where
    s : List OrgMember × ℕ
    s = (pre ++ (post ++ drop (length post) (v ∷ post)), length (pre ++ post))

    found :
        remove_round member (length pre) (pre ++ v ∷ post, length (pre ++ v ∷ post))
        ≡ some (cut (length pre) (pre ++ v ∷ post, length (pre ++ v ∷ post)))
    found =
        round-match member (length pre) _ _ (get_elem?-append pre v post) e
          (omega (arith, length-append pre (v ∷ post)))

    rest :
        (l : List OrgMember)
        → All (IsOther member) l
        → remove_loop member
            (length l)
            (length pre + 1)
            (pre ++ (l ++ drop (length l) (v ∷ l)), length (pre ++ l))
          ≡ some (pre ++ (l ++ drop (length l) (v ∷ l)), length (pre ++ l))
    rest [] k = unfold remove_loop in refl
    rest (p ∷ l) k =
        let t =
          remove_loop-IsOther member (suc (length l)) (length pre + 1) (pre ++ p ∷ [])
            (l ++ drop (length l) (p ∷ l)) (length (pre ++ p ∷ l))
            (omega (arith, length-append pre (p ∷ [])))
            (omega
              (arith, length-append l (drop (length l) (p ∷ l)), length-drop (length l) (p ∷ l)))
            (All-append (IsOther member) l _ k.1
              (All-drop (IsOther member) (length l) (p ∷ l) k)) in
        rw append_assoc at t

-- The loop from the middle: nothing before `idx` is of the member.
remove_loop-without :
    (member : Str) (pre post : List OrgMember)
    → UniqueNames post
    → (s : List OrgMember × ℕ) × (remove_loop member
          (length post)
          (length pre)
          (pre ++ post, length (pre ++ post))
        ≡ some s)
      × (elements s ≡ pre ++ without member post)
remove_loop-without member pre [] u =
    ((pre ++ [], length (pre ++ [])), unfold remove_loop in refl, take-all _ _ (omega arith))
remove_loop-without member pre (v ∷ post) u = elim (Bool-cases (str_eq v.member_name member)) [
  | inl same ↦
      let gone : name_exists member post ≡ false = absent_in_tail member v post u same in
      let (s, run, end) =
        remove_loop-match member pre v post same (IsOther-absent member post gone) in
      (s, run, rw (same, without-absent member post gone) end)
  | inr other ↦
      let (s, run, end) = remove_loop-without member (pre ++ v ∷ []) post u.1 in
      let size : length (pre ++ v ∷ []) ≡ length pre + 1 = length-append pre (v ∷ []) in
      (
        s,
        remove_loop-round member (length post) (length pre) _ _
              (round-other member (length pre) _ _ (get_elem?-append pre v post) other)
            ∙ (rw (← size, ← append_assoc pre (v ∷ []) post) run),
        rw other (rw append_assoc at end),
      )
]

-- On a list of unique names `RemoveMember` does not panic, and removes exactly the member of that
-- name, keeping the order of the others.
pub remove_from-without :
    (member : Str) (l : List OrgMember)
    → UniqueNames l
    → remove_from member l ≡ some (without member l)
unfolding remove_from
remove_from-without member l u =
    let (s, run, end) = remove_loop-without member [] l u in rw (run, remove_from) (ap some end)
