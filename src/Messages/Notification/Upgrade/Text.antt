-- ===== src/Messages/Notification/Upgrade/Text.antt =====
-- messages/notification/notification.go: the statements of a file that creates tables.
use datafoundry_proxy.Base.{
  ℕ, zero, suc, ◌-◌, ◌≡◌, refl, ap, ◌∙◌, List, [], ◌∷◌, ◌++◌, Str, onto_first, has_prefix, codes,
  ◌==◌, length, if◌then◌else◌, Bool-cases, inl, inr,
}

-- How many bytes of a separator are still to come, before the next byte of the text.
abbrev to_come : Str → ℕ → Str → ℕ
to_come sep zero s = if has_prefix sep s then length sep else 0
to_come sep (suc n) s = suc n

-- bytes.SplitAfter(s, sep), for a separator that is not empty: a part ends behind each separator.
-- `left` bytes of a separator that has begun are still to come.
unfoldable pub split_after : Str → ℕ → Str → List Str
unfolding has_prefix
split_after sep left [] = [] ∷ []
split_after sep left (c ∷ s) =
    let n = to_come sep left (c ∷ s) in
    let rest = split_after sep (n - 1) s in if n == 1 then (c ∷ []) ∷ rest else onto_first c rest

-- `sqls[:len(sqls)-1]`
abbrev pub all_but_last : {A : Type 0} → List A → List A
all_but_last [] = []
all_but_last (x ∷ []) = []
all_but_last (x ∷ y ∷ l) = x ∷ all_but_last (y ∷ l)

abbrev pub charset_end : Str
charset_end = codes "DEFAULT CHARSET=UTF8;"

unfoldable pub statements : Str → List Str
unfolding split_after
statements text = all_but_last (split_after charset_end 0 text)

abbrev pub joined : List Str → Str
joined [] = []
joined (w ∷ l) = w ++ joined l

joined-onto_first : (c : ℕ) (l : List Str) → joined (onto_first c l) ≡ c ∷ joined l
joined-onto_first c [] = refl
joined-onto_first c (w ∷ l) = refl

joined-round :
    (n c : ℕ) (s : Str) (rest : List Str)
    → joined rest ≡ s
    → joined (if n == 1 then (c ∷ []) ∷ rest else onto_first c rest) ≡ c ∷ s
joined-round n c s rest e = elim (Bool-cases (n == 1)) [
  | inl last ↦ rw last (ap (λ t. c ∷ t) e)
  | inr more ↦ rw more (joined-onto_first c rest ∙ ap (λ t. c ∷ t) e)
]

pub joined-split_after : (sep : Str) (left : ℕ) (s : Str) → joined (split_after sep left s) ≡ s
unfolding split_after
joined-split_after sep left [] = refl
joined-split_after sep left (c ∷ s) =
    let n = to_come sep left (c ∷ s) in
    joined-round n c s (split_after sep (n - 1) s) (joined-split_after sep (n - 1) s)
