-- ===== src/Login.antt =====
-- login.go and signin.go: the fragment of a redirect, and the token that it holds. What the program
-- does with them stands in the modules below.
pub mod Handlers
pub mod Fragment
pub mod Failures
use datafoundry_proxy.Base.{
  ℕ, Bool, true, false, ◌&&◌, ◌||◌, List, [], ◌∷◌, ◌++◌, Option, none, some, Str, codes, str_eq,
  ltb, ◌==◌, onto_first, if◌then◌else◌,
}
use datafoundry_proxy.Errors.{
  GoError, plain, ldp_error_new, err_code_unknown_error, err_code_unauthorized,
  err_code_method_not_allowed,
}
use datafoundry_proxy.Types.{UserInfo}
use datafoundry_proxy.Effect.{
  Result, ok, err, Outcome, returns, fails, panics, fatal, M, pure, fail, panic, lift, run, attempt,
  ◌>>=◌,
}
use datafoundry_proxy.Json.{
  Json, Fields, Decoder, obj, end, field, str, decode_struct, decode_string, key_is,
}
use datafoundry_proxy.Json.Codec.{json, unmarshal, checked, read_user}
use datafoundry_proxy.Backend.{Backend, Body, no_body, project_request, HttpRequest, HttpResponse}
use datafoundry_proxy.Store.{get_profile, user_update}
use datafoundry_proxy.Auth.{Request, get_df_userame}
use datafoundry_proxy.Response.{Response}
use datafoundry_proxy.Handlers.{resp_error}
use datafoundry_proxy.Openshift.{https_addr_maker}

-- strings.Split with a separator of one byte.
unfoldable pub split_byte : ℕ → Str → List Str
split_byte b [] = [] ∷ []
split_byte b (c ∷ s) = let rest = split_byte b s in if c == b then [] ∷ rest else onto_first c rest

-- A map[string]string, in the order of its keys, in which json.Marshal writes them.
abbrev pub TextMap : Type 0
TextMap = List (Str × Str)

unfoldable pub text_lt : Str → Str → Bool
text_lt s [] = false
text_lt [] (d ∷ t) = true
text_lt (c ∷ s) (d ∷ t) = ltb c d || (c == d && text_lt s t)

unfoldable pub set_key : Str → Str → TextMap → TextMap
unfolding text_lt
set_key k v [] = (k, v) ∷ []
set_key k v ((j, u) ∷ l) =
    let rest = set_key k v l in
    if str_eq k j then (k, v) ∷ l else if text_lt k j then (k, v) ∷ (j, u) ∷ l else (j, u) ∷ rest

unfoldable pub value_of : Str → TextMap → Str
value_of k [] = []
value_of k ((j, u) ∷ l) = if str_eq k j then u else value_of k l

-- `m[n[0]] = n[1]`, which panics without a second part.
abbrev pub set_parts : List Str → TextMap → Option TextMap
set_parts [] m = none
set_parts (k ∷ []) m = none
set_parts (k ∷ v ∷ l) m = some (set_key k v m)

-- The loop of proc; `none` is a panic.
unfoldable pub proc_loop : TextMap → List Str → Option TextMap
unfolding split_byte set_key
proc_loop m [] = some m
proc_loop m (v ∷ l) = elim (set_parts (split_byte b'=' v) m) [
  | none ↦ none
  | some m' ↦ proc_loop m' l
]

unfoldable pub proc : List Str → Option TextMap
unfolding proc_loop
proc s = proc_loop [] s

-- Here a text need not be valid UTF-8, since url.Parse turns %FF into the byte 255: a byte `b` that belongs
-- to no character stands as 1114112 + b, behind the code points. json.Marshal writes U+FFFD for it.
abbrev pub is_rune : ℕ → Bool
is_rune c = ltb c 55296 || (ltb 57343 c && ltb c 1114112)

unfoldable pub to_valid : Str → Str
to_valid [] = []
to_valid (c ∷ s) = (if is_rune c then c else 65533) ∷ to_valid s

unfoldable pub map_fields : TextMap → Fields
unfolding to_valid
map_fields [] = end
map_fields ((k, v) ∷ l) = field (to_valid k) (str (to_valid v)) (map_fields l)

unfoldable pub encode_map : TextMap → Json
unfolding map_fields
encode_map m = obj (map_fields m)

-- RegionToken
pub record RegionToken : Type 0 where
  pub access_token : Str
  pub expires_in : Str
  pub token_type : Str
  pub region : Str

set_region_token : RegionToken → Str → Json → RegionToken × Bool
set_region_token t k v =
    if key_is k "access_token"
    then (let (x, fine) = decode_string t.access_token v in (record t { access_token = x }, fine))
    else if key_is k "expires_in"
    then (let (x, fine) = decode_string t.expires_in v in (record t { expires_in = x }, fine))
    else if key_is k "token_type"
    then (let (x, fine) = decode_string t.token_type v in (record t { token_type = x }, fine))
    else if key_is k "region"
    then (let (x, fine) = decode_string t.region v in (record t { region = x }, fine))
    else (t, true)

unfoldable pub decode_region_token : Decoder RegionToken
unfolding set_region_token decode_struct decode_string key_is
decode_region_token = decode_struct set_region_token

abbrev pub empty_token : RegionToken
empty_token = record { access_token = []; expires_in = []; token_type = []; region = [] }

-- The user and the password of a basic Authorization, where it has two parts, and those two.
abbrev pub two_parts : List Str → Option (Str × Str)
two_parts (a ∷ b ∷ []) = some (a, b)
two_parts _ = none

unfoldable pub basic_credentials : (Str → Str) → Str → Option (Str × Str)
unfolding split_byte
basic_credentials base64_decode basic = elim (two_parts (split_byte b' ' basic)) [
  | none ↦ none
  | some (scheme, payload) ↦ two_parts (split_byte b':' (base64_decode payload))
]

-- The token for the header Authorization; blank without both parts.
unfoldable pub bearer_of : TextMap → Str
unfolding value_of
bearer_of auth =
    if str_eq (value_of (codes "token_type") auth) []
      || str_eq (value_of (codes "access_token") auth) []
    then []
    else value_of (codes "token_type") auth ++ b' ' ∷ value_of (codes "access_token") auth
