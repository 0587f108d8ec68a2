-- ===== src/Messages/Params.antt =====
-- messages/params.go: numbers in the query of a request, and the page that a query asks for.
pub mod Page
pub mod Must
use datafoundry_proxy.Base.{
  ℕ, zero, suc, ◌+◌, ◌-◌, ◌*◌, ◌%◌, Bool, true, false, ◌&&◌, [], ◌∷◌, Option, none, some, Str, ltb,
  leb, ◌==◌, if◌then◌else◌,
}
use datafoundry_proxy.Base.Int.{ℤ, pos, negsuc, int64_half, int64_dec, int64_mul, leb_ℤ}

-- strconv.ParseInt(s, 10, 64): an optional sign, digits, and the range of 64 bits; `none` is an error.
digits : ℕ → Str → Option ℕ
digits acc [] = some acc
digits acc (c ∷ s) =
    let rest = digits (acc * 10 + (c - b'0')) s in if leb b'0' c && leb c b'9' then rest else none

unsigned : Str → Option ℕ
unsigned [] = none
unsigned (c ∷ s) = digits 0 (c ∷ s)

abbrev positive : Option ℕ → Option ℤ
positive none = none
positive (some n) = if ltb n int64_half then some (pos n) else none

abbrev negative : Option ℕ → Option ℤ
negative none = none
negative (some zero) = some (pos 0)
negative (some (suc n)) = if ltb n int64_half then some (negsuc n) else none

unfoldable pub parse_int : Str → Option ℤ
unfolding digits unsigned
parse_int [] = none
parse_int (c ∷ s) =
    if c == b'-'
    then negative (unsigned s)
    else if c == b'+'
    then positive (unsigned s)
    else positive (unsigned (c ∷ s))

-- _optionalIntParam
unfoldable pub optional_int_param : Str → ℤ → ℤ
optional_int_param [] default_int = default_int
optional_int_param (c ∷ s) default_int = elim (parse_int (c ∷ s)) [
  | none ↦ default_int
  | some i ↦ i
]

-- `if x < 1 { x = 1 }`
unfoldable pub at_least_one : ℤ → ℤ
at_least_one x = if leb_ℤ (pos 1) x then x else pos 1

-- `if size < minSize { size = minSize } else if size > maxSize { size = maxSize }`
unfoldable pub clamped : ℤ → ℤ → ℤ → ℤ
clamped min_size max_size size =
    if leb_ℤ min_size size then (if leb_ℤ size max_size then size else max_size) else min_size

-- `if minSize > maxSize { minSize, maxSize = maxSize, minSize }`
abbrev pub ordered : ℤ → ℤ → ℤ × ℤ
ordered min_size max_size =
    if leb_ℤ min_size max_size then (min_size, max_size) else (max_size, min_size)

-- optionalOffsetAndSize on the texts of "page" and "size" in the query. `int` has 64 bits.
unfoldable pub optional_offset_and_size : Str → Str → ℤ → ℤ → ℤ → ℤ × ℤ
optional_offset_and_size page_param size_param default_size min_size max_size =
    let page = int64_dec (at_least_one (optional_int_param page_param (pos 0))) in
    let (lo, hi) = ordered (at_least_one min_size) (at_least_one max_size) in
    let size = clamped lo hi (optional_int_param size_param default_size) in
    (int64_mul page size, size)
