-- ===== src/Org/Duplicates.antt =====
-- `RemoveMember` on a list where the last member shares its name with another one.
use datafoundry_proxy.Base.{
  ℕ, zero, suc, ◌+◌, ◌-◌, ◌≤◌, ◌≡◌, refl, ◌∙◌, subst, true, false, List, [], ◌∷◌, ◌++◌,
  append_assoc, none, some, Str, str_eq, arith, leb, leb→le, leb-false, length, get_elem?, take,
  drop, length-append, length-take, length-drop, drop-append, get_elem?-append, Bool-cases,
  Option-cases, inl, inr,
}
use datafoundry_proxy.Types.{OrgMember}
use datafoundry_proxy.Org.{name_exists, cut, remove_round, remove_loop, remove_from}
use datafoundry_proxy.Org.Remove.{round-other, round-match, remove_loop-round}

-- A round that panics.
remove_loop-none :
    (member : Str) (rounds idx : ℕ) (s : List OrgMember × ℕ)
    → remove_round member idx s ≡ none
    → remove_loop member (suc rounds) idx s ≡ none
unfolding remove_loop
remove_loop-none member rounds idx s h = ground arith

round-beyond :
    (member : Str) (idx : ℕ) (arr : List OrgMember) (len : ℕ)
    → get_elem? arr idx ≡ none
    → remove_round member idx (arr, len) ≡ none
unfolding remove_round
round-beyond member idx arr len g = ground arith

round-short :
    (member : Str) (idx : ℕ) (arr : List OrgMember) (len : ℕ) {v : OrgMember}
    → get_elem? arr idx ≡ some v
    → str_eq v.member_name member ≡ true
    → leb (idx + 1) len ≡ false
    → remove_round member idx (arr, len) ≡ none
unfolding remove_round
round-short member idx arr len g h k = ground arith

-- What a cut leaves before the last element of the array.
abbrev cut_initial : ℕ → List OrgMember → OrgMember → ℕ → List OrgMember
cut_initial idx ini v len =
    take idx (ini ++ v ∷ []) ++ (drop (idx + 1) (take len (ini ++ v ∷ [])) ++ drop (len - 1) ini)

cut-last :
    (idx : ℕ) (ini : List OrgMember) (v : OrgMember) (len : ℕ)
    → len ≤ length ini + 1
    → cut idx (ini ++ v ∷ [], len) ≡ (cut_initial idx ini v len ++ v ∷ [], len - 1)
unfolding cut
cut-last idx ini v len h =
    rw
      (
        drop-append (len - 1) ini (v ∷ []) (omega (arith, h)),
        append_assoc (take idx (ini ++ v ∷ [])) _ (v ∷ []),
        append_assoc (drop (idx + 1) (take len (ini ++ v ∷ []))) _ (v ∷ []),
      )
      refl

length-cut_initial :
    (idx : ℕ) (ini : List OrgMember) (v : OrgMember) (len : ℕ)
    → idx + 1 ≤ len
    → len ≤ length ini + 1
    → length (cut_initial idx ini v len) ≡ length ini
length-cut_initial idx ini v len h k =
    let arr = ini ++ v ∷ [] in
    let size = length-append ini (v ∷ []) in
    omega (
      arith,
      h,
      k,
      size,
      length-append (take idx arr) (drop (idx + 1) (take len arr) ++ drop (len - 1) ini),
      length-append (drop (idx + 1) (take len arr)) (drop (len - 1) ini),
      length-take idx arr (omega (arith, h, k, size)),
      length-drop (idx + 1) (take len arr),
      length-take len arr (omega (arith, k, size)),
      length-drop (len - 1) ini,
    )

-- Once the slice is shorter than its array, the last element of the array, which the loop still
-- meets, is out of the slice's range.
remove_loop-last :
    (member : Str) (rounds idx : ℕ) (ini : List OrgMember) (v : OrgMember) (len : ℕ)
    → str_eq v.member_name member ≡ true
    → idx + rounds ≡ length ini
    → len ≤ length ini
    → remove_loop member (suc rounds) idx (ini ++ v ∷ [], len) ≡ none
remove_loop-last member zero idx ini v len hit size short =
    let here : get_elem? (ini ++ v ∷ []) idx ≡ some v =
      subst (λ i. get_elem? (ini ++ v ∷ []) i ≡ some v) {x = length ini} {y = idx}
        (omega (arith, size)) (get_elem?-append ini v []) in
    remove_loop-none member zero idx _
      (round-short member idx _ len here hit (leb-false (idx + 1) len (omega (arith, size, short))))
remove_loop-last member (suc rounds) idx ini v len hit size short =
    elim (Option-cases (get_elem? (ini ++ v ∷ []) idx)) [
      | inl beyond ↦
          remove_loop-none member (suc rounds) idx _ (round-beyond member idx _ len beyond)
      | inr (u, here) ↦ elim (Bool-cases (str_eq u.member_name member)) [
        | inl same ↦ elim (Bool-cases (leb (idx + 1) len)) [
          | inl inside ↦
              let fits = leb→le (idx + 1) len inside in
              remove_loop-round member (suc rounds) idx _ _
                (round-match member idx _ len here same fits)
              ∙ (rw (cut-last idx ini v len (omega (arith, short))) (
                  remove_loop-last member rounds (idx + 1) (cut_initial idx ini v len) v (len - 1)
                    hit
                    (omega
                      (arith, size, length-cut_initial idx ini v len fits (omega (arith, short))))
                    (omega (
                      arith,
                      short,
                      length-cut_initial idx ini v len fits (omega (arith, short)),
                    ))))
          | inr outside ↦
              remove_loop-none member (suc rounds) idx _
                (round-short member idx _ len here same outside)
        ]
        | inr other ↦
            remove_loop-round member (suc rounds) idx _ _ (round-other member idx _ len here other)
            ∙ remove_loop-last member rounds (idx + 1) ini v len hit (omega (arith, size)) short
      ]
    ]

-- The loop from the middle, before it has removed anything.
remove_loop-duplicate :
    (member : Str) (pre post : List OrgMember) (v : OrgMember)
    → str_eq v.member_name member ≡ true
    → name_exists member post ≡ true
    → remove_loop member
        (suc (length post))
        (length pre)
        ((pre ++ post) ++ v ∷ [], length ((pre ++ post) ++ v ∷ []))
      ≡ none
unfolding name_exists
remove_loop-duplicate member pre [] v hit h = cc
remove_loop-duplicate member pre (u ∷ post) v hit h =
    let arr = (pre ++ u ∷ post) ++ v ∷ [] in
    let here : get_elem? arr (length pre) ≡ some u =
      rw (append_assoc pre (u ∷ post) (v ∷ [])) (get_elem?-append pre u (post ++ v ∷ [])) in
    let size : length arr ≡ length (pre ++ u ∷ post) + 1 =
      length-append (pre ++ u ∷ post) (v ∷ []) in
    let size' : length (pre ++ u ∷ post) ≡ length pre + suc (length post) =
      length-append pre (u ∷ post) in
    elim (Bool-cases (str_eq u.member_name member)) [
      | inl same ↦
          let ini = pre ++ u ∷ post in
          let first =
            length-cut_initial (length pre) ini v (length arr) (omega (arith, size, size'))
              (omega (arith, size)) in
          remove_loop-round member (suc (length post)) (length pre) _ _ (
            round-match member (length pre) arr (length arr) here same (omega (arith, size, size')))
          ∙ (rw (cut-last (length pre) ini v (length arr) (omega (arith, size))) (
              remove_loop-last member (length post) (length pre + 1)
                (cut_initial (length pre) ini v (length arr)) v (length arr - 1) hit
                (omega (arith, size', first)) (omega (arith, size, first))))
      | inr other ↦
          let there : name_exists member post ≡ true = ground arith in
          let rest = remove_loop-duplicate member (pre ++ u ∷ []) post v hit there in
          remove_loop-round member (suc (length post)) (length pre) _ _
            (round-other member (length pre) arr (length arr) here other)
          ∙ (rw (length-append pre (u ∷ []), append_assoc pre (u ∷ []) post) at rest)
    ]

-- If the last member of a list shares its name with another one, `RemoveMember` of that name panics.
pub remove_from-none :
    (member : Str) (l : List OrgMember) (v : OrgMember)
    → str_eq v.member_name member ≡ true
    → name_exists member l ≡ true
    → remove_from member (l ++ v ∷ []) ≡ none
unfolding remove_from
remove_from-none member l v hit h =
    let arr = l ++ v ∷ [] in
    let run : remove_loop member (length arr) 0 (arr, length arr) ≡ none =
      subst (λ n. remove_loop member n 0 (arr, length arr) ≡ none) {x = suc (length l)}
        {y = length arr} (omega (arith, length-append l (v ∷ [])))
        (remove_loop-duplicate member [] l v hit h) in
    rw (run, remove_from) refl
