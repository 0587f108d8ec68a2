-- ===== src/Validation.antt =====
-- validation.go: user names, as labels of DNS, and mail addresses.
pub mod Labels
pub mod Email
pub mod Dash
use datafoundry_proxy.Base.{
  ℕ, zero, suc, ◌+◌, ◌-◌, Bool, true, false, not, ◌&&◌, ◌||◌, List, [], ◌∷◌, ◌++◌, Option, none,
  some, Str, codes, str_eq, ltb, leb, ◌==◌, byte_length, rune_len, if◌then◌else◌,
}
use datafoundry_proxy.Regex.{Regex, eps, class, seq, star, opt, anywhere, match_whole}

abbrev pub dns1123_label_max_length : ℕ
dns1123_label_max_length = 63

-- [a-z0-9], [-a-z0-9], \w and [-._\w]
abbrev pub alnum : ℕ → Bool
alnum c = leb b'a' c && leb c b'z' || leb b'0' c && leb c b'9'

abbrev pub label_byte : ℕ → Bool
label_byte c = c == b'-' || alnum c

abbrev pub word_byte : ℕ → Bool
word_byte c =
    leb b'a' c && leb c b'z' || leb b'A' c && leb c b'Z' || leb b'0' c && leb c b'9' || c == b'_'

abbrev pub address_byte : ℕ → Bool
address_byte c = c == b'-' || c == b'.' || word_byte c

-- DNS1123LabelFmt
abbrev pub dns1123_label_fmt : Regex
dns1123_label_fmt = seq (class alnum) (opt (seq (star (class label_byte)) (class alnum)))

-- EmailAddressFmt: [-._\w]*\w@[-._\w]*\w\.\w{2,3}
abbrev pub email_address_fmt : Regex
email_address_fmt = seq (star (class address_byte)) (
    seq (class word_byte) (
      seq (class (λ c. c == b'@')) (
        seq (star (class address_byte)) (
          seq (class word_byte) (
            seq (class (λ c. c == b'.'))
              (seq (class word_byte) (seq (class word_byte) (opt (class word_byte)))))))))

-- `ValidateEmail`: the pattern has no anchors.
unfoldable pub validate_email : Str → Bool
unfolding match_whole
validate_email email = match_whole (anywhere email_address_fmt) email

-- `IsDNS1123Label`
unfoldable pub is_dns1123_label : Str → Bool
unfolding match_whole
is_dns1123_label value =
    leb (byte_length value) dns1123_label_max_length && match_whole dns1123_label_fmt value

-- Why a name is refused, in place of the texts of the source.
pub data Reason : Type 0 where
  may_not_be : Str → Reason
  may_not_contain : ℕ → Reason
  too_short : Reason
  no_dns_label : Reason

-- strings.HasSuffix(name, "-")
has_dash_suffix : Str → Bool
has_dash_suffix [] = false
has_dash_suffix (c ∷ []) = c == b'-'
has_dash_suffix (c ∷ d ∷ s) = has_dash_suffix (d ∷ s)

-- Bytes of a character that has been cut through, which are read as U+FFFD.
abbrev pub cut_bytes : ℕ → Str
cut_bytes zero = []
cut_bytes (suc n) = 65533 ∷ cut_bytes n

-- `name[:len(name)-2]` of a name that ends in a dash: without the dash, and the last byte before it.
abbrev pub without_two : Str → Str
without_two [] = []
without_two (c ∷ []) = []
without_two (c ∷ d ∷ []) = cut_bytes (rune_len c - 1)
without_two (c ∷ d ∷ e ∷ s) = c ∷ without_two (d ∷ e ∷ s)

-- `maskTrailingDash`: `name[:len(name)-2] + "a"`, where a slice to -1 panics (`none`).
unfoldable pub mask_trailing_dash : Str → Option Str
unfolding has_dash_suffix
mask_trailing_dash name =
    if has_dash_suffix name
    then (if ltb (byte_length name) 2 then none else some (without_two name ++ codes "a"))
    else some name

abbrev label_result : Option Str → Option (Option Reason)
label_result none = none
label_result (some name) = some (if is_dns1123_label name then none else some no_dns_label)

-- `NameIsDNSLabel`: a panic, or the reason why the name is refused, if it is.
unfoldable pub name_is_dns_label : Str → Bool → Option (Option Reason)
unfolding mask_trailing_dash
name_is_dns_label name prefix = label_result (if prefix then mask_trailing_dash name else some name)

-- `ValidateNamespaceName` with `prefix` false, as `ValidateUserName` calls it: it cannot panic.
unfoldable pub validate_namespace_name : Str → Option Reason
validate_namespace_name name = if is_dns1123_label name then none else some no_dns_label

contains_byte : ℕ → Str → Bool
contains_byte b [] = false
contains_byte b (c ∷ s) = if c == b then true else contains_byte b s

-- The two loops of `MinimalNameRequirements`.
may_not_be_loop : Str → List Str → Option Reason
may_not_be_loop name [] = none
may_not_be_loop name (illegal ∷ l) =
    if str_eq name illegal then some (may_not_be illegal) else may_not_be_loop name l

may_not_contain_loop : Str → List ℕ → Option Reason
may_not_contain_loop name [] = none
may_not_contain_loop name (illegal ∷ l) =
    if contains_byte illegal name
    then some (may_not_contain illegal)
    else may_not_contain_loop name l

-- NameMayNotBe and NameMayNotContain, texts of one character
abbrev name_may_not_be : List Str
name_may_not_be = codes "." ∷ codes ".." ∷ []

abbrev name_may_not_contain : List ℕ
name_may_not_contain = b'/' ∷ b'%' ∷ []

abbrev pub or_else : Option Reason → Option Reason → Option Reason
or_else (some r) next = some r
or_else none next = next

unfoldable pub minimal_name_requirements : Str → Option Reason
unfolding may_not_be_loop may_not_contain_loop contains_byte str_eq
minimal_name_requirements name =
    or_else (may_not_be_loop name name_may_not_be) (may_not_contain_loop name name_may_not_contain)

-- `ValidateUserName`: `none` if the name is valid.
unfoldable pub validate_user_name : Str → Option Reason
validate_user_name name =
    or_else (minimal_name_requirements name)
      (if ltb (byte_length name) 2 then some too_short else validate_namespace_name name)
