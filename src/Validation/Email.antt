-- ===== src/Validation/Email.antt =====
-- The pattern of mail addresses has no anchors.
use datafoundry_proxy.Base.{◌≡◌, refl, true, [], ◌∷◌, ◌++◌, append_assoc, Str, all}
use datafoundry_proxy.Regex.{Regex, anywhere}
use datafoundry_proxy.Regex.Matches.{Matches, both, match_whole_iff, all-star}
use datafoundry_proxy.Validation.{email_address_fmt, validate_email}

all-true : (s : Str) → all (λ _. true) s ≡ true
all-true [] = refl
all-true (c ∷ s) = all-true s

anywhere-around :
    (r : Regex) (before s behind : Str)
    → Matches (anywhere r) s
    → Matches (anywhere r) (before ++ (s ++ behind))
anywhere-around r before _ behind (both x _ m (both y z n k e') e) =
    both (before ++ x) (y ++ (z ++ behind))
      (all-star (λ _. true) (before ++ x) (all-true (before ++ x)))
      (both y (z ++ behind) n (all-star (λ _. true) (z ++ behind) (all-true (z ++ behind))) refl)
      (rw (e, e') (rw (append_assoc before x, append_assoc x, append_assoc y) refl))

-- A text that contains an accepted mail address is accepted itself, whatever stands before and
-- behind it.
pub validate_email-around :
    (before email behind : Str)
    → validate_email email ≡ true
    → validate_email (before ++ (email ++ behind)) ≡ true
unfolding validate_email
validate_email-around before email behind h =
    (match_whole_iff (anywhere email_address_fmt) (before ++ (email ++ behind))).1 (
      anywhere-around email_address_fmt before email behind
        ((match_whole_iff (anywhere email_address_fmt) email).0 h))
