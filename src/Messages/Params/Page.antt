-- ===== src/Messages/Params/Page.antt =====
-- The page that a query asks for: how long it is, and where it starts.
use datafoundry_proxy.Base.{
  ℕ, zero, suc, ◌-◌, ◌*◌, ◌%◌, ◌≤◌, ◌<◌, ◌≡◌, refl, ap, ◌∙◌, Str, ltb, leb, arith, if◌then◌else◌,
  Bool-cases, inl, inr, le→leb, leb→le,
}
use datafoundry_proxy.Base.Int.{ℤ, pos, negsuc, int64_dec, int64_mul}
use datafoundry_proxy.Messages.Params.{
  optional_int_param, at_least_one, clamped, optional_offset_and_size,
}

at_least_one-pos : (x : ℤ) → (n : ℕ) × (at_least_one x ≡ pos (suc n))
unfolding at_least_one
at_least_one-pos (pos zero) = (0, refl)
at_least_one-pos (pos (suc n)) = (n, rw (le→leb 1 (suc n) (omega arith)) refl)
at_least_one-pos (negsuc n) = (0, refl)

at_least_one-id : (n : ℕ) → 1 ≤ n → at_least_one (pos n) ≡ pos n
unfolding at_least_one
at_least_one-id n h = rw (le→leb 1 n h) refl

clamped-bounds :
    (a b : ℕ) (x : ℤ) → a ≤ b → (s : ℕ) × (clamped (pos a) (pos b) x ≡ pos s) × ((a ≤ s) × (s ≤ b))
unfolding clamped
clamped-bounds a b (pos n) h = elim (Bool-cases (leb a n)) [
  | inl above ↦ elim (Bool-cases (leb n b)) [
    | inl below ↦ (n, rw (above, below) refl, (leb→le a n above, leb→le n b below))
    | inr over ↦ (b, rw (above, over) refl, (h, omega arith))
  ]
  | inr under ↦ (a, rw under refl, (omega arith, h))
]
clamped-bounds a b (negsuc n) h = (a, refl, (omega arith, h))

module _ (page_param size_param : Str) (default_size : ℤ) (a b : ℕ) where
  page_lem :
      (p s : ℕ)
      → 1 ≤ a
      → a ≤ b
      → at_least_one (optional_int_param page_param (pos 0)) ≡ pos (suc p)
      → clamped (pos a) (pos b) (optional_int_param size_param default_size) ≡ pos s
      → optional_offset_and_size page_param size_param default_size (pos a) (pos b)
        ≡ (int64_mul (pos p) (pos s), pos s)
  unfolding optional_offset_and_size int64_dec
  page_lem p s ha hb page size =
      rw
        (at_least_one-id a ha, at_least_one-id b (omega (arith, ha, hb)), page, le→leb a b hb, size)
        refl

  -- For bounds with 1 ≤ minSize ≤ maxSize, whatever the texts in the query are: the size lies between
  -- the bounds, and the offset is the product, in 64 bits, of the size and the number of pages before
  -- the one that is asked for (page 1 if the query asks for none, or for one below 1).
  pub optional_offset_and_size-bounds :
      1 ≤ a
      → a ≤ b
      → (p : ℕ) × (s : ℕ) × (at_least_one (optional_int_param page_param (pos 0)) ≡ pos (suc p))
        × ((a ≤ s) × (s ≤ b))
        × (optional_offset_and_size page_param size_param default_size (pos a) (pos b)
            ≡ (int64_mul (pos p) (pos s), pos s))
  optional_offset_and_size-bounds ha hb =
      let (p, page) = at_least_one-pos (optional_int_param page_param (pos 0)) in
      let (s, size, bounds) = clamped-bounds a b (optional_int_param size_param default_size) hb in
      (p, s, page, bounds, page_lem p s ha hb page size)

  -- For bounds with 1 ≤ minSize ≤ maxSize, a size `s` within them and `p` pages before the one asked
  -- for, with p * s below 2^64: the offset is p * s if that is below 2^63, and negative if it is not.
  pub optional_offset_and_size-offset :
      (p s : ℕ)
      → 1 ≤ a
      → a ≤ b
      → at_least_one (optional_int_param page_param (pos 0)) ≡ pos (suc p)
      → clamped (pos a) (pos b) (optional_int_param size_param default_size) ≡ pos s
      → p * s < 18446744073709551616
      → (optional_offset_and_size page_param size_param default_size (pos a) (pos b)).0 ≡ (
          if ltb (p * s) 9223372036854775808
          then pos (p * s)
          else negsuc (18446744073709551616 - p * s - 1))
  unfolding int64_mul
  optional_offset_and_size-offset p s ha hb page size below =
      let small : (p * s) % 18446744073709551616 ≡ p * s = omega (arith, below) in
      ap (λ r. r.0) (page_lem p s ha hb page size) ∙ (rw small refl)
