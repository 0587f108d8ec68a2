-- ===== src/Tests/Logins.antt =====
-- Logging in: the theorems on tokens applied.
use datafoundry_proxy.Base.{◌≡◌, refl, [], ◌∷◌, none, some, codes, true, false}
use datafoundry_proxy.Errors.{GoError}
use datafoundry_proxy.Auth.{Request}
use datafoundry_proxy.Effect.{ok, panics, fatal}
use datafoundry_proxy.Json.Codec.{json, unmarshal}
use datafoundry_proxy.Login.{
  TextMap, split_byte, proc, encode_map, decode_region_token, empty_token,
}
use datafoundry_proxy.Login.Fragment.{lacks, PlainValue, fragment_of, get_token-fragment}
use datafoundry_proxy.Login.Handlers.{Oauth, login, sign_in}
use datafoundry_proxy.Login.Failures.{malformed_fragment-ends_server}
use datafoundry_proxy.Tests.World.{World, small_backend}
use datafoundry_proxy.Tests.Samples.{world0, request, org_body}

plain_abc : PlainValue (codes "abc")
unfolding lacks
plain_abc = (refl, refl, refl)

plain_86400 : PlainValue (codes "86400")
unfolding lacks
plain_86400 = (refl, refl, refl)

plain_full : PlainValue (codes "user%3Afull")
unfolding lacks
plain_full = (refl, refl, refl)

plain_bearer : PlainValue (codes "Bearer")
unfolding lacks
plain_bearer = (refl, refl, refl)

get_token-fragment_example :
    (m : TextMap) × (proc (
        split_byte b'&'
          (fragment_of (codes "abc") (codes "86400") (codes "user%3Afull") (codes "Bearer")))
      ≡ some m)
    × (unmarshal decode_region_token empty_token (json (encode_map m)) ≡ (
      record {
        access_token = codes "abc";
        expires_in = codes "86400";
        token_type = codes "Bearer";
        region = [];
      },
      true,
    ))
get_token-fragment_example =
    get_token-fragment (codes "abc") (codes "86400") (codes "user%3Afull") (codes "Bearer")
      plain_abc plain_86400 plain_full plain_bearer

-- Servers that redirect without a fragment.
abbrev bare : Oauth World
bare = record {
  round_trip = λ url auth w. (ok (record { status_code = 302; fragment = ok [] }), w);
  base64_decode = λ s. s;
  url_host = λ url. none;
  region_jd = codes "https://jd";
  region_aws = codes "https://aws";
  oauthurl = codes "https://oauth";
  gitlaburl = codes "https://code";
}

one_part : split_byte b'&' [] ≡ [] ∷ []
unfolding split_byte
one_part = refl

no_equals : lacks b'=' [] ≡ true
unfolding lacks
no_equals = refl

abbrev basic : Request
basic = request (codes "GET") (codes "Basic") [] (org_body [])

malformed_fragment-ends_server_example :
    ((w' : World) × (login small_backend bare basic world0 ≡ (panics, w')))
    × ((e : GoError) × (w' : World) × (sign_in small_backend bare false basic world0
          ≡ (fatal e, w')))
malformed_fragment-ends_server_example =
    malformed_fragment-ends_server small_backend bare basic b'B' (codes "asic") [] [] [] [] false
      world0 refl refl refl (λ w. (302, w, refl)) one_part no_equals
