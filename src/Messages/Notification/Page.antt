-- ===== src/Messages/Notification/Page.antt =====
-- The page that validateOffsetAndLimit makes of a query lies within the messages that there are.
use datafoundry_proxy.Base.{ℕ, zero, suc, ◌+◌, ◌-◌, ◌≤◌, ◌<◌, ◌≡◌, ltb, leb, arith, if◌then◌else◌}
use datafoundry_proxy.Base.Int.{ℤ, pos, negsuc, int64_add, int64_sub, int64_half}
use datafoundry_proxy.Messages.Notification.Query.{validate_offset_and_limit}

abbrev pub half_range : ℕ
half_range = 4611686018427387904

-- The page in the numbers that are not negative: behind the end it is the last one.
abbrev pub page_of : ℕ → ℕ → ℕ → ℕ × ℕ
page_of count offset limit =
    if leb count offset
    then (if leb limit count then (count - limit, limit) else (0, count))
    else if ltb count (offset + limit)
    then (offset, count - offset)
    else (offset, limit)

abbrev pub as_ints : ℕ × ℕ → ℤ × ℤ
as_ints p = (pos p.0, pos p.1)

validate-page_of :
    (count offset limit : ℕ)
    → count < half_range
    → offset < int64_half
    → 1 ≤ limit
    → limit < half_range
    → validate_offset_and_limit (pos count) (pos offset) (pos limit)
      ≡ as_ints (page_of count offset limit)
unfolding validate_offset_and_limit int64_add int64_sub
validate-page_of count offset limit c o one l = ground arith

-- The limit and the offset as they are raised: a limit below 1 is 1, and a negative offset 0.
abbrev pub limit_of : ℤ → ℕ
limit_of (pos zero) = 1
limit_of (pos (suc n)) = suc n
limit_of (negsuc n) = 1

abbrev pub offset_of : ℤ → ℕ
offset_of (pos n) = n
offset_of (negsuc n) = 0

-- For counts and limits below 2^62 and any 64-bit offset (also a negative one, and one behind the
-- end), validateOffsetAndLimit gives the page `page_of` of the limit and the offset raised to 1 and
-- 0: behind the end the last page, and else the page at the offset, cut at the end.
pub validate_offset_and_limit-page_of :
    (count : ℕ) (offset limit : ℤ)
    → count < half_range
    → offset_of offset < int64_half
    → limit_of limit < half_range
    → validate_offset_and_limit (pos count) offset limit
      ≡ as_ints (page_of count (offset_of offset) (limit_of limit))
unfolding validate_offset_and_limit int64_add int64_sub
validate_offset_and_limit-page_of count (pos o) (pos zero) c h l = ground arith
validate_offset_and_limit-page_of count (pos o) (pos (suc n)) c h l = ground arith
validate_offset_and_limit-page_of count (pos o) (negsuc n) c h l = ground arith
validate_offset_and_limit-page_of count (negsuc o) (pos zero) c h l = ground arith
validate_offset_and_limit-page_of count (negsuc o) (pos (suc n)) c h l = ground arith
validate_offset_and_limit-page_of count (negsuc o) (negsuc n) c h l = ground arith

pub page_of-bounds :
    (count offset limit : ℕ)
    → 1 ≤ count
    → 1 ≤ limit
    → (1 ≤ (page_of count offset limit).1)
      × ((page_of count offset limit).0 + (page_of count offset limit).1 ≤ count)
      × ((page_of count offset limit).1 ≤ limit)
      × (offset < count → (page_of count offset limit).0 ≡ offset)
page_of-bounds count offset limit c l =
    (ground arith, ground arith, ground arith, λ h. ground arith)

pub limit_of-positive : (limit : ℤ) → 1 ≤ limit_of limit
limit_of-positive (pos zero) = omega arith
limit_of-positive (pos (suc n)) = omega arith
limit_of-positive (negsuc n) = omega arith

-- Where there are messages (fewer than 2^62), and for a limit below 2^62 and any offset, the page has
-- one message at least and lies within the messages; it is not longer than the limit (raised to 1);
-- and where the offset (raised to 0) is within the messages, it starts there.
pub validate_offset_and_limit-bounds :
    (count : ℕ) (offset limit : ℤ)
    → 1 ≤ count
    → count < half_range
    → offset_of offset < int64_half
    → limit_of limit < half_range
    → (o : ℕ) × (l : ℕ) × (validate_offset_and_limit (pos count) offset limit ≡ (pos o, pos l))
      × (1 ≤ l)
      × (o + l ≤ count)
      × (l ≤ limit_of limit)
      × (offset_of offset < count → o ≡ offset_of offset)
validate_offset_and_limit-bounds count offset limit some_there c h l =
    let (o, n) = page_of count (offset_of offset) (limit_of limit) in
    let (one, inside, short, start) =
      page_of-bounds count (offset_of offset) (limit_of limit) some_there
        (limit_of-positive limit) in
    (o, n, validate_offset_and_limit-page_of count offset limit c h l, one, inside, short, start)
