-- ===== src/Validation/Labels.antt =====
-- What the names are that pass the validation, without the regular expression.
use datafoundry_proxy.Base.{
  ℕ, suc, length-append, ◌-◌, ◌≤◌, ◌≡◌, refl, ap, ◌↔◌, Bool, true, false, ◌&&◌, [], ◌∷◌, ◌++◌,
  Option, none, some, Str, arith, ltb, ◌==◌, length, byte_length, all, byte_at, leb→le, le→leb,
  ltb-false, Bool-cases, ==_iff, inl, inr, str_eq, if◌then◌else◌,
}
use datafoundry_proxy.Regex.{class, seq, star, opt}
use datafoundry_proxy.Regex.Matches.{
  Matches, empty, one, both, left, right, stop, more, match_whole_iff, star-all,
}
use datafoundry_proxy.Validation.{
  alnum, label_byte, dns1123_label_fmt, is_dns1123_label, minimal_name_requirements,
  validate_namespace_name, validate_user_name, Reason, too_short, or_else, contains_byte,
  may_not_be_loop, name_may_not_be,
}

-- Letters, digits and dashes, a letter or digit at both ends: the shape of a label.
abbrev pub HasLabelShape : Str → Type 0
HasLabelShape v =
    (all label_byte v ≡ true)
    × (alnum (byte_at v 0) ≡ true)
    × (alnum (byte_at v (length v - 1)) ≡ true)

all-append : (p : ℕ → Bool) (s t : Str) → all p (s ++ t) ≡ (all p s && all p t)
all-append p [] t = refl
all-append p (c ∷ s) t = ground (arith, all-append p s t)

last-append : (s : Str) (d : ℕ) → byte_at (s ++ d ∷ []) (length s) ≡ d
last-append [] d = refl
last-append (c ∷ s) d = last-append s d

&&-left : (a b : Bool) → (a && b) ≡ true → a ≡ true
&&-left true b h = refl
&&-left false b h = h

&&-right : (a b : Bool) → (a && b) ≡ true → b ≡ true
&&-right true b h = h
&&-right false b h = cc

label_byte-alnum : (c : ℕ) → alnum c ≡ true → label_byte c ≡ true
label_byte-alnum c h = ground arith

tail-shape :
    (c : ℕ) (s : Str) (d : ℕ)
    → alnum c ≡ true
    → all label_byte s ≡ true
    → alnum d ≡ true
    → HasLabelShape (c ∷ (s ++ d ∷ []))
tail-shape c s d hc hs hd =
    let size : suc (length (s ++ d ∷ [])) - 1 ≡ suc (length s) =
      omega (arith, length-append s (d ∷ [])) in
    (
      rw (label_byte-alnum c hc, all-append label_byte s (d ∷ []), hs, label_byte-alnum d hd),
      hc,
      rw (size, last-append s d) hd,
    )

label-shape :
    (c : ℕ) (t : Str)
    → alnum c ≡ true
    → Matches (opt (seq (star (class label_byte)) (class alnum))) t
    → HasLabelShape (c ∷ t)
label-shape c _ hc (left (both s _ m (one d hd e) e')) =
    rw (e', e) (tail-shape c s d hc (star-all label_byte m) hd)
label-shape c _ hc (right (empty e)) = rw e (rw (label_byte-alnum c hc), hc, hc)

Matches-shape : {v : Str} → Matches dns1123_label_fmt v → HasLabelShape v
Matches-shape (both _ t (one c hc e) m e') = rw (e', e) (label-shape c t hc m)

-- A text that is not empty, from its last character.
shape-tail :
    (d : ℕ) (t : Str)
    → all label_byte (d ∷ t) ≡ true
    → alnum (byte_at (d ∷ t) (length t)) ≡ true
    → Matches (seq (star (class label_byte)) (class alnum)) (d ∷ t)
shape-tail d [] h k = both [] (d ∷ []) (stop refl) (one d k refl) refl
shape-tail d (e ∷ t) h k = prepend (shape-tail e t (ground arith) k)
  where
    prepend :
        Matches (seq (star (class label_byte)) (class alnum)) (e ∷ t)
        → Matches (seq (star (class label_byte)) (class alnum)) (d ∷ e ∷ t)
    prepend (both s u m n q) =
        both (d ∷ s) u (more d [] s (one d (ground arith) refl) m refl) n (ap (λ x. d ∷ x) q)

shape-Matches : (v : Str) → HasLabelShape v → Matches dns1123_label_fmt v
shape-Matches [] h = cc
shape-Matches (c ∷ []) h = both (c ∷ []) [] (one c h.1 refl) (right (empty refl)) refl
shape-Matches (c ∷ d ∷ t) h =
    let size : suc (suc (length t)) - 1 ≡ suc (length t) = omega arith in
    both (c ∷ []) (d ∷ t) (one c h.1 refl)
      (left (shape-tail d t (&&-right _ _ h.0) (rw size at h.2))) refl

-- `IsDNS1123Label` accepts exactly the texts of at most 63 bytes that consist of lower-case letters,
-- digits and dashes and have a letter or digit at both ends (so that they are not empty).
pub is_dns1123_label_iff :
    (v : Str) → (is_dns1123_label v ≡ true) ↔ ((byte_length v ≤ 63) × HasLabelShape v)
unfolding is_dns1123_label
is_dns1123_label_iff v = (
  λ h. (
    leb→le (byte_length v) 63 (&&-left _ _ h),
    Matches-shape ((match_whole_iff dns1123_label_fmt v).0 (&&-right _ _ h)),
  ),
  λ h.
      rw (le→leb (byte_length v) 63 h.0)
        ((match_whole_iff dns1123_label_fmt v).1 (shape-Matches v h.1)),
)

-- A character that no label has is in none.
contains_byte-label :
    (b : ℕ) (v : Str) → label_byte b ≡ false → all label_byte v ≡ true → contains_byte b v ≡ false
unfolding contains_byte
contains_byte-label b [] h k = refl
contains_byte-label b (c ∷ v) h k = elim (Bool-cases (c == b)) [
  | inl same ↦ cc ((==_iff c b).0 same, &&-left (label_byte c) (all label_byte v) k)
  | inr other ↦ rw other (contains_byte-label b v h (&&-right (label_byte c) _ k))
]

-- The first character of a label is a letter or digit, so that it is none of the names made of dots.
may_not_be-label :
    (c : ℕ) (v : Str) → alnum c ≡ true → may_not_be_loop (c ∷ v) name_may_not_be ≡ none
unfolding may_not_be_loop str_eq
may_not_be-label c v h = ground arith

minimal-label : (v : Str) → HasLabelShape v → minimal_name_requirements v ≡ none
unfolding minimal_name_requirements
minimal-label [] h = cc
minimal-label (c ∷ v) h = rw (
  may_not_be-label c v h.1,
  contains_byte-label b'/' (c ∷ v) refl h.0,
  contains_byte-label b'%' (c ∷ v) refl h.0,
)

-- `ValidateUserName` accepts exactly the labels of two bytes or more: what it tests before is
-- implied. The labels are those that `IsDNS1123Label` accepts.
pub validate_user_name_iff :
    (v : Str)
    → (validate_user_name v ≡ none)
      ↔ ((2 ≤ byte_length v) × ((byte_length v ≤ 63) × HasLabelShape v))
unfolding validate_user_name
validate_user_name_iff v = (
  λ h.
      let (long, label) = accepted (minimal_name_requirements v) h in
      (long, (is_dns1123_label_iff v).0 label),
  λ (long, h).
      rw (minimal-label v h.1, ltb-false (byte_length v) 2 long)
        (unfold validate_namespace_name in rw ((is_dns1123_label_iff v).1 h)),
)
  where
    accepted :
        (r : Option Reason)
        → or_else r (if ltb (byte_length v) 2 then some too_short else validate_namespace_name v)
          ≡ none
        → (2 ≤ byte_length v) × (is_dns1123_label v ≡ true)
    accepted none h = unfold validate_namespace_name in (ground arith, ground arith)
    accepted (some r) h = cc
