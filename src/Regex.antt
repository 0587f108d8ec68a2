-- ===== src/Regex.antt =====
-- Go's regexp, as far as validation.go uses it: a matcher by derivatives. (The patterns
-- there are made of ASCII classes, so that bytes and runes agree.)
pub mod Matches
use datafoundry_proxy.Base.{
  ℕ, zero, suc, Bool, true, false, ◌&&◌, ◌||◌, List, [], ◌∷◌, Str, if◌then◌else◌,
}

pub data Regex : Type 0 where
  never : Regex
  eps : Regex
  class : (ℕ → Bool) → Regex
  seq : Regex → Regex → Regex
  alt : Regex → Regex → Regex
  star : Regex → Regex

-- Does the empty text match?
unfoldable pub nullable : Regex → Bool
nullable never = false
nullable eps = true
nullable (class p) = false
nullable (seq r q) = nullable r && nullable q
nullable (alt r q) = nullable r || nullable q
nullable (star r) = true

-- What has to follow the byte `c`.
unfoldable pub deriv : ℕ → Regex → Regex
deriv c never = never
deriv c eps = never
deriv c (class p) = if p c then eps else never
deriv c (seq r q) =
    let d = seq (deriv c r) q in let e = deriv c q in if nullable r then alt d e else d
deriv c (alt r q) = alt (deriv c r) (deriv c q)
deriv c (star r) = seq (deriv c r) (star r)

-- `^r$` against a whole text.
unfoldable pub match_whole : Regex → Str → Bool
unfolding nullable deriv
match_whole r [] = nullable r
match_whole r (c ∷ s) = match_whole (deriv c r) s

-- `r?`, and `r{n}`
abbrev pub opt : Regex → Regex
opt r = alt r eps

-- `MatchString` of a pattern with no anchors: it looks for a match anywhere in the text.
abbrev pub anywhere : Regex → Regex
anywhere r = seq (star (class (λ _. true))) (seq r (star (class (λ _. true))))
