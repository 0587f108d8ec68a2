-- ===== src/Routes/Failures.antt =====
-- What the failure of a service does to the server.
use datafoundry_proxy.Base.{◌≡◌, refl, false, List, [], ◌∷◌, none, some}
use datafoundry_proxy.Errors.{GoError, check_if_exist_ldap}
use datafoundry_proxy.Types.{UserInfo, empty_user}
use datafoundry_proxy.Effect.{ok, returns, fails, ◌>>=◌}
use datafoundry_proxy.Json.Codec.{decode_user}
use datafoundry_proxy.Backend.{Backend}
use datafoundry_proxy.Store.{if_exist}
use datafoundry_proxy.Auth.{Request, parse_request_body}
use datafoundry_proxy.User.Account.{validate, add_to_ldap, after_ldap, create}
use datafoundry_proxy.Handlers.Account.{sign_up, exist_checked}
use datafoundry_proxy.Routes.{Route, post_signup, dispatch, serve}

module _ {W : Type 0} (B : Backend W) where
  -- If a valid new user signs up and the LDAP server fails in any way but by reporting that the entry
  -- exists, the server ends: neither this request nor any one after it is answered.
  pub sign_up-ends_server :
      (r : Request) (usr : UserInfo) (e : GoError) (rest : List (Route × Request)) (w w1 w2 : W)
      → parse_request_body decode_user empty_user r ≡ ok usr
      → validate usr ≡ none
      → if_exist B usr.username w ≡ (returns false, w1)
      → add_to_ldap B usr w1 ≡ (fails e, w2)
      → check_if_exist_ldap (some e) ≡ false
      → serve B ((post_signup, r) ∷ rest) w ≡ ([], w2)
  unfolding ◌>>=◌ serve dispatch sign_up exist_checked create after_ldap
  sign_up-ends_server r usr e rest w w1 w2 parsed valid new failed other =
      rw (parsed, valid, new, failed, other) refl
