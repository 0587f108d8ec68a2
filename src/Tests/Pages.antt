-- ===== src/Tests/Pages.antt =====
-- Pages that queries ask for.
use datafoundry_proxy.Base.{suc, ◌≡◌, refl, codes, Str}
use datafoundry_proxy.Base.Int.{pos}
use datafoundry_proxy.Messages.Params.{parse_int, optional_int_param, at_least_one, clamped}

abbrev last_page : Str
last_page = codes "9223372036854775807"

page_read : at_least_one (optional_int_param last_page (pos 0)) ≡ pos (suc 9223372036854775806)
unfolding at_least_one optional_int_param parse_int
page_read = refl

size_read : clamped (pos 1) (pos 100) (optional_int_param (codes "2") (pos 30)) ≡ pos 2
unfolding clamped optional_int_param parse_int
size_read = refl
