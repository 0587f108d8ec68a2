-- ===== src/Validation/Dash.antt =====
-- maskTrailingDash: when it panics, and what it does to a longer name.
use datafoundry_proxy.Base.{
  ℕ, ◌-◌, ◌≤◌, ◌≡◌, refl, ap, ◌∙◌, rune_len, byte_length, ◌↔◌, true, [], ◌∷◌, ◌++◌, none, some, Str,
  codes, ==_iff, append_assoc, ltb-false, arith,
}
use datafoundry_proxy.Validation.{cut_bytes, without_two, has_dash_suffix, mask_trailing_dash}

has_dash_suffix-append : (s : Str) → has_dash_suffix (s ++ b'-' ∷ []) ≡ true
unfolding has_dash_suffix
has_dash_suffix-append [] = refl
has_dash_suffix-append (c ∷ []) = refl
has_dash_suffix-append (c ∷ d ∷ s) = has_dash_suffix-append (d ∷ s)

-- `maskTrailingDash` panics on "-" and on no other name.
pub mask_trailing_dash-none : (name : Str) → (mask_trailing_dash name ≡ none) ↔ (name ≡ codes "-")
unfolding mask_trailing_dash has_dash_suffix
mask_trailing_dash-none [] = (λ h. cc, λ h. cc)
mask_trailing_dash-none (c ∷ []) = ground (arith, ==_iff c b'-')
mask_trailing_dash-none (c ∷ d ∷ s) = (λ h. ground arith, λ h. cc)

without_two-long :
    (x d c : ℕ) (s : Str)
    → without_two (x ∷ d ∷ (s ++ (c ∷ b'-' ∷ []))) ≡ x ∷ without_two (d ∷ (s ++ (c ∷ b'-' ∷ [])))
without_two-long x d c [] = refl
without_two-long x d c (z ∷ s) = refl

without_two-append :
    (s : Str) (c : ℕ) → without_two (s ++ (c ∷ b'-' ∷ [])) ≡ s ++ cut_bytes (rune_len c - 1)
without_two-append [] c = refl
without_two-append (x ∷ []) c = refl
without_two-append (x ∷ d ∷ s) c =
    without_two-long x d c s ∙ ap (λ t. x ∷ t) (without_two-append (d ∷ s) c)

two_bytes : (s : Str) (c : ℕ) → 2 ≤ byte_length (s ++ (c ∷ b'-' ∷ []))
two_bytes [] c = ground arith
two_bytes (x ∷ s) c = omega (arith, two_bytes s c)

-- On a name that ends in a dash and has another character before it, it replaces the dash and the last
-- byte of that character by one "a": an ASCII character is lost, and of another one the first bytes
-- are left.
pub mask_trailing_dash-append :
    (s : Str) (c : ℕ)
    → mask_trailing_dash (s ++ (c ∷ b'-' ∷ []))
      ≡ some ((s ++ cut_bytes (rune_len c - 1)) ++ codes "a")
unfolding mask_trailing_dash
mask_trailing_dash-append s c =
    let dash : has_dash_suffix (s ++ (c ∷ b'-' ∷ [])) ≡ true =
      rw append_assoc at (has_dash_suffix-append (s ++ c ∷ [])) in
    let long = ltb-false (byte_length (s ++ (c ∷ b'-' ∷ []))) 2 (two_bytes s c) in
    rw (dash, long, without_two-append s c) refl
