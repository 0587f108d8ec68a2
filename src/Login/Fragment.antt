-- ===== src/Login/Fragment.antt =====
-- login.go and signin.go: the token that is read from the fragment of a redirect.
use datafoundry_proxy.Base.{
  ℕ, ◌≡◌, refl, ap, ◌∙◌, Bool, true, not, ◌&&◌, ◌==◌, List, [], ◌∷◌, ◌++◌, some, Str, codes, str_eq,
  arith,
}
use datafoundry_proxy.Json.{decode_struct, decode_string, key_is}
use datafoundry_proxy.Json.Codec.{json, unmarshal}
use datafoundry_proxy.Login.{
  TextMap, split_byte, text_lt, set_key, proc, proc_loop, is_rune, to_valid, map_fields, encode_map,
  decode_region_token, empty_token,
}

-- The byte does not occur in the text.
unfoldable pub lacks : ℕ → Str → Bool
lacks b [] = true
lacks b (c ∷ s) = not (c == b) && lacks b s

-- A part of a fragment, and the fragment with which the authorization server answers.
abbrev pub part : Str → Str → Str
part key value = key ++ b'=' ∷ value

abbrev pub fragment_of : Str → Str → Str → Str → Str
fragment_of access expires scope kind =
    part (codes "access_token") access
    ++ b'&'
      ∷ (part (codes "expires_in") expires
          ++ b'&' ∷ (part (codes "scope") scope ++ b'&' ∷ part (codes "token_type") kind))

pub split_byte-lacks : (b : ℕ) (s : Str) → lacks b s ≡ true → split_byte b s ≡ s ∷ []
unfolding split_byte lacks
split_byte-lacks b [] h = refl
split_byte-lacks b (c ∷ s) h = ground (arith, split_byte-lacks b s)

split_byte-append :
    (b : ℕ) (s t : Str) → lacks b s ≡ true → split_byte b (s ++ b ∷ t) ≡ s ∷ split_byte b t
unfolding split_byte lacks
split_byte-append b [] t h = ground arith
split_byte-append b (c ∷ s) t h = ground (arith, split_byte-append b s t)

lacks-append : (b : ℕ) (s t : Str) → lacks b s ≡ true → lacks b t ≡ true → lacks b (s ++ t) ≡ true
unfolding lacks
lacks-append b [] t hs ht = ht
lacks-append b (c ∷ s) t hs ht = ground (arith, lacks-append b s t)

split_part :
    (key value : Str)
    → lacks b'=' key ≡ true
    → lacks b'=' value ≡ true
    → split_byte b'=' (part key value) ≡ key ∷ value ∷ []
split_part key value hk hv =
    split_byte-append b'=' key value hk ∙ ap (λ l. key ∷ l) (split_byte-lacks b'=' value hv)

-- All bytes belong to characters.
abbrev pub is_valid : Str → Bool
is_valid [] = true
is_valid (c ∷ s) = is_rune c && is_valid s

-- Neither "&" nor "=" occurs, and the text is valid UTF-8.
abbrev pub PlainValue : Str → Type 0
PlainValue s = (lacks b'&' s ≡ true) × (lacks b'=' s ≡ true) × (is_valid s ≡ true)

is_valid-to_valid : (s : Str) → is_valid s ≡ true → to_valid s ≡ s
unfolding to_valid
is_valid-to_valid [] h = refl
is_valid-to_valid (c ∷ s) h = ground (arith, is_valid-to_valid s)

part-lacks :
    (key value : Str)
    → lacks b'&' key ≡ true
    → PlainValue value
    → lacks b'&' (part key value) ≡ true
unfolding lacks
part-lacks key value hk hv = lacks-append b'&' key (b'=' ∷ value) hk hv.0

split_fragment :
    (access expires scope kind : Str)
    → PlainValue access
    → PlainValue expires
    → PlainValue scope
    → PlainValue kind
    → split_byte b'&' (fragment_of access expires scope kind)
      ≡ part (codes "access_token") access
        ∷ part (codes "expires_in") expires
        ∷ part (codes "scope") scope
        ∷ part (codes "token_type") kind
        ∷ []
unfolding lacks
split_fragment access expires scope kind ha he hs hk =
    split_byte-append b'&' (part (codes "access_token") access) _
      (part-lacks (codes "access_token") access refl ha)
    ∙ ap (λ l. part (codes "access_token") access ∷ l)
        (split_byte-append b'&' (part (codes "expires_in") expires) _
            (part-lacks (codes "expires_in") expires refl he)
          ∙ ap (λ l. part (codes "expires_in") expires ∷ l)
              (split_byte-append b'&' (part (codes "scope") scope) _
                  (part-lacks (codes "scope") scope refl hs)
                ∙ ap (λ l. part (codes "scope") scope ∷ l)
                    (split_byte-lacks b'&' (part (codes "token_type") kind)
                      (part-lacks (codes "token_type") kind refl hk))))

-- What is read of the four parts.
abbrev pub map_of : Str → Str → Str → Str → TextMap
map_of access expires scope kind =
    (codes "access_token", access)
    ∷ (codes "expires_in", expires)
    ∷ (codes "scope", scope)
    ∷ (codes "token_type", kind)
    ∷ []

proc_loop-part :
    (m : TextMap) (key value : Str) (l : List Str)
    → lacks b'=' key ≡ true
    → lacks b'=' value ≡ true
    → proc_loop m (part key value ∷ l) ≡ proc_loop (set_key key value m) l
unfolding proc_loop
proc_loop-part m key value l hk hv = rw (proc_loop, split_part key value hk hv) refl

proc_parts :
    (access expires scope kind : Str)
    → lacks b'=' access ≡ true
    → lacks b'=' expires ≡ true
    → lacks b'=' scope ≡ true
    → lacks b'=' kind ≡ true
    → proc (
        part (codes "access_token") access
        ∷ part (codes "expires_in") expires
        ∷ part (codes "scope") scope
        ∷ part (codes "token_type") kind
        ∷ [])
      ≡ some (map_of access expires scope kind)
unfolding proc proc_loop set_key text_lt str_eq lacks
proc_parts access expires scope kind ha he hs hk =
    let kinds = part (codes "token_type") kind ∷ [] in
    let scopes = part (codes "scope") scope ∷ kinds in
    let m1 = set_key (codes "access_token") access [] in
    let m2 = set_key (codes "expires_in") expires m1 in
    let m3 = set_key (codes "scope") scope m2 in
    proc_loop-part [] (codes "access_token") access (part (codes "expires_in") expires ∷ scopes)
      refl ha
    ∙ (proc_loop-part m1 (codes "expires_in") expires scopes refl he
        ∙ (proc_loop-part m2 (codes "scope") scope kinds refl hs
            ∙ proc_loop-part m3 (codes "token_type") kind [] refl hk))

-- The fragment of the authorization server's answer, where its values are valid UTF-8 and have neither
-- "&" nor "=", is read without a panic, and the JSON that token_proxy makes of it decodes without an error to the
-- token with these values: the access token, its life and its type; the region is still blank.
pub get_token-fragment :
    (access expires scope kind : Str)
    → PlainValue access
    → PlainValue expires
    → PlainValue scope
    → PlainValue kind
    → (m : TextMap) × (proc (split_byte b'&' (fragment_of access expires scope kind)) ≡ some m)
      × (unmarshal decode_region_token empty_token (json (encode_map m)) ≡ (
        record { access_token = access; expires_in = expires; token_type = kind; region = [] },
        true,
      ))
unfolding unmarshal decode_region_token decode_struct decode_string key_is encode_map map_fields
    str_eq to_valid
get_token-fragment access expires scope kind ha he hs hk = (
  map_of access expires scope kind,
  ap proc (split_fragment access expires scope kind ha he hs hk)
      ∙ proc_parts access expires scope kind ha.1 he.1 hs.1 hk.1,
  rw (is_valid-to_valid access ha.2, is_valid-to_valid expires he.2, is_valid-to_valid kind hk.2)
      refl,
)
