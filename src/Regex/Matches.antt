-- ===== src/Regex/Matches.antt =====
-- What it means for a text to match, with no search in it, and that the matcher decides it.
use datafoundry_proxy.Base.{
  ℕ, ◌≡◌, refl, sym, ap, ◌∙◌, ◌↔◌, ◌⊎◌, inl, inr, Bool, true, false, [], ◌∷◌, ◌++◌, Str, arith,
  Bool-cases, all, if◌then◌else◌,
}
use datafoundry_proxy.Regex.{Regex, never, eps, class, seq, alt, star, nullable, deriv, match_whole}

pub data Matches : Regex → Str → Type 0 where
  empty : {s : Str} → s ≡ [] → Matches eps s
  one : {p : ℕ → Bool} {s : Str} (c : ℕ) → p c ≡ true → s ≡ c ∷ [] → Matches (class p) s
  both :
      {r q : Regex} {u : Str} (s t : Str)
      → Matches r s
      → Matches q t
      → u ≡ s ++ t
      → Matches (seq r q) u
  left : {r q : Regex} {s : Str} → Matches r s → Matches (alt r q) s
  right : {r q : Regex} {s : Str} → Matches q s → Matches (alt r q) s
  stop : {r : Regex} {s : Str} → s ≡ [] → Matches (star r) s
  more :
      {r : Regex} {u : Str} (c : ℕ) (s t : Str)
      → Matches r (c ∷ s)
      → Matches (star r) t
      → u ≡ c ∷ (s ++ t)
      → Matches (star r) u

nullable_sound : (r : Regex) → nullable r ≡ true → Matches r []
unfolding nullable
nullable_sound never h = cc
nullable_sound eps h = empty refl
nullable_sound (class p) h = cc
nullable_sound (seq r q) h =
    both [] [] (nullable_sound r (ground arith)) (nullable_sound q (ground arith)) refl
nullable_sound (alt r q) h = elim (Bool-cases (nullable r)) [
  | inl yes_r ↦ left (nullable_sound r yes_r)
  | inr no_r ↦ right (nullable_sound q (ground arith))
]
nullable_sound (star r) h = stop refl

nil-append : (s t : Str) → [] ≡ s ++ t → (s ≡ []) × (t ≡ [])
nil-append [] t h = (refl, sym h)
nil-append (c ∷ s) t h = cc

nullable_complete : {r : Regex} {s : Str} → Matches r s → s ≡ [] → nullable r ≡ true
unfolding nullable
nullable_complete (empty e) h = refl
nullable_complete (one c p e) h = cc
nullable_complete (both s t m n e) h =
    let (hs, ht) = nil-append s t (sym h ∙ e) in rw (nullable_complete m hs, nullable_complete n ht)
nullable_complete (left m) h = rw (nullable_complete m h)
nullable_complete (right {r} m) h = ground (arith, nullable_complete m h)
nullable_complete (stop e) h = refl
nullable_complete (more c s t m n e) h = refl

class-step :
    (p : ℕ → Bool) (c : ℕ) {s : Str} (b : Bool)
    → p c ≡ b
    → Matches (if b then eps else never) s
    → Matches (class p) (c ∷ s)
class-step p c true h (empty e) = one c h (ap (λ u. c ∷ u) e)
class-step p c false h m = elim m [ ]

-- A match of a sequence's derivative, from what its parts' derivatives stand for.
module _ (c : ℕ) (r q : Regex) (first : (s : Str) → Matches (deriv c r) s → Matches r (c ∷ s))
    (second : (s : Str) → Matches (deriv c q) s → Matches q (c ∷ s)) where
  in_first : {s : Str} → Matches (seq (deriv c r) q) s → Matches (seq r q) (c ∷ s)
  in_first (both s t m n e) = both (c ∷ s) t (first s m) n (ap (λ u. c ∷ u) e)

  seq-step :
      {s : Str} (b : Bool)
      → nullable r ≡ b
      → Matches (if b then alt (seq (deriv c r) q) (deriv c q) else seq (deriv c r) q) s
      → Matches (seq r q) (c ∷ s)
  seq-step true h (left m) = in_first m
  seq-step {s} true h (right m) = both [] (c ∷ s) (nullable_sound r h) (second s m) refl
  seq-step false h m = in_first m

deriv_sound : (c : ℕ) (r : Regex) (s : Str) → Matches (deriv c r) s → Matches r (c ∷ s)
unfolding deriv
deriv_sound c never s m = elim m [ ]
deriv_sound c eps s m = elim m [ ]
deriv_sound c (class p) s m = class-step p c (p c) refl m
deriv_sound c (seq r q) s m = seq-step c r q (deriv_sound c r) (deriv_sound c q) (nullable r) refl m
deriv_sound c (alt r q) s (left m) = left (deriv_sound c r s m)
deriv_sound c (alt r q) s (right m) = right (deriv_sound c q s m)
deriv_sound c (star r) _ (both s t m n e) = more c s t (deriv_sound c r s m) n (ap (λ u. c ∷ u) e)

head-eq : {a b : ℕ} {s t : Str} → a ∷ s ≡ b ∷ t → a ≡ b
head-eq h = cc

tail-eq : {a b : ℕ} {s t : Str} → a ∷ s ≡ b ∷ t → s ≡ t
tail-eq h = cc

class-back :
    (p : ℕ → Bool) (c d : ℕ) (s : Str)
    → p d ≡ true
    → c ∷ s ≡ d ∷ []
    → Matches (if p c then eps else never) s
class-back p c d s h e = rw (head-eq e, h) (empty (tail-eq e))

-- The other way round: where the first byte falls.
seq-back :
    (c : ℕ) (r q : Regex) (u : Str) (b : Bool)
    → nullable r ≡ b
    → ((s t : Str) × (c ∷ u ≡ (c ∷ s) ++ t) × Matches (deriv c r) s × Matches q t)
      ⊎ ((nullable r ≡ true) × Matches (deriv c q) u)
    → Matches (if b then alt (seq (deriv c r) q) (deriv c q) else seq (deriv c r) q) u
seq-back c r q u true h (inl (s, t, e, m, n)) = left (both s t m n (tail-eq e))
seq-back c r q u true h (inr (_, m)) = right m
seq-back c r q u false h (inl (s, t, e, m, n)) = both s t m n (tail-eq e)
seq-back c r q u false h (inr (e, m)) = cc

deriv_complete :
    (c : ℕ) (u : Str) {r : Regex} {v : Str} → Matches r v → v ≡ c ∷ u → Matches (deriv c r) u
unfolding deriv
deriv_complete c u (empty e) h = cc
deriv_complete c u (one {p} d k e) h = class-back p c d u k (sym h ∙ e)
deriv_complete c u (left m) h = left (deriv_complete c u m h)
deriv_complete c u (right m) h = right (deriv_complete c u m h)
deriv_complete c u (stop e) h = cc
deriv_complete c u (more d s t m n e) h =
    both s t (deriv_complete c s m (ap (λ x. x ∷ s) (sym (head-eq (sym h ∙ e))))) n
      (tail-eq (sym h ∙ e))
deriv_complete c u (both {r} {q} [] t m n e) h =
    seq-back c r q u (nullable r) refl
      (inr (nullable_complete m refl, deriv_complete c u n (sym e ∙ h)))
deriv_complete c u (both {r} {q} (d ∷ s) t m n e) h = seq-back c r q u (nullable r) refl (
    inl (
      s,
      t,
      rw (head-eq (sym h ∙ e)) (ap (λ x. d ∷ x) (tail-eq (sym h ∙ e))),
      deriv_complete c s m (ap (λ x. x ∷ s) (sym (head-eq (sym h ∙ e)))),
      n,
    ))

match_whole_sound : (r : Regex) (s : Str) → match_whole r s ≡ true → Matches r s
unfolding match_whole
match_whole_sound r [] h = nullable_sound r h
match_whole_sound r (c ∷ s) h = deriv_sound c r s (match_whole_sound (deriv c r) s h)

match_whole_complete : (r : Regex) (s : Str) → Matches r s → match_whole r s ≡ true
unfolding match_whole
match_whole_complete r [] m = nullable_complete m refl
match_whole_complete r (c ∷ s) m = match_whole_complete (deriv c r) s (deriv_complete c s m refl)

-- The matcher decides the relation.
pub match_whole_iff : (r : Regex) (s : Str) → (match_whole r s ≡ true) ↔ Matches r s
match_whole_iff r s = (match_whole_sound r s, match_whole_complete r s)

-- A run of bytes of one class.
pub star-all : (p : ℕ → Bool) {s : Str} → Matches (star (class p)) s → all p s ≡ true
star-all p (stop e) = rw e
star-all p (more c s t (one d k e) n e') = rw (e', head-eq e, k, tail-eq e) (star-all p n)

pub all-star : (p : ℕ → Bool) (s : Str) → all p s ≡ true → Matches (star (class p)) s
all-star p [] h = stop refl
all-star p (c ∷ s) h = more c [] s (one c (ground arith) refl) (all-star p s (ground arith)) refl
