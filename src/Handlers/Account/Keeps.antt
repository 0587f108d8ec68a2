-- ===== src/Handlers/Account/Keeps.antt =====
-- The handlers of accounts leave the stored organizations alone.
use datafoundry_proxy.Base.{byte_length, Bool, Option, some, none, Str, codes, str_eq, ◌==◌}
use datafoundry_proxy.Errors.{GoError}
use datafoundry_proxy.Types.{UserInfo, Password, Orgnazition}
use datafoundry_proxy.Effect.{Result, ok, err, M, pure, exit}
use datafoundry_proxy.Effect.Ensures.{
  Any, Any-bind, Any-attempt, Any-pure, Any-exit, Any-lift, Any-if, keeps_rules,
}
use datafoundry_proxy.Json.Codec.{Value}
use datafoundry_proxy.Backend.{Backend}
use datafoundry_proxy.Backend.Laws.{Laws}
use datafoundry_proxy.Http.Keeps.{Keeps}
use datafoundry_proxy.Store.Keeps.{
  Ensures-get_value, Ensures-get_profile, Ensures-user_update, Ensures-if_exist, Ensures-ldap_dial,
  Ensures-ldap_bind, Ensures-ldap_password_modify,
}
use datafoundry_proxy.Response.{Response}
use datafoundry_proxy.Auth.{Request}
use datafoundry_proxy.User.Account.{validate}
use datafoundry_proxy.User.Account.Keeps.{
  Keeps-create, Keeps-send_verify_mail, Keeps-active_account,
}
use datafoundry_proxy.Handlers.Keeps.{
  Keeps-or_respond, Keeps-answer_nil, Keeps-with_user, Keeps-authed_identities,
}
use datafoundry_proxy.Handlers.Account.{
  spawn, created, exist_checked, validated, sign_up, profile_get, updated, parsed_profile,
  profile_put, profile_as, profile, token_read, verify_account, send_verify_mail_handler,
  fatal_on_error, modify_password_ldap, modify, password_modify,
}

module _ {W : Type 0} (B : Backend W) (stored : W → Str → Option Value) (L : Laws B stored)
    (P : Orgnazition → Type 0) where
  Keeps-spawn :
      (m : M W (Unit {0})) (resp : Response)
      → Keeps B stored L P m
      → Keeps B stored L P (spawn B m resp)
  Keeps-spawn m resp h = Any-bind _ _ (Any-attempt _ h) (λ _. Any-pure _)

  Keeps-created : (usr : UserInfo) → Keeps B stored L P (created B usr)
  unfolding created
  Keeps-created usr = search (keeps_rules, Keeps-spawn, Keeps-send_verify_mail B stored L P)

  Keeps-exist_checked : (usr : UserInfo) (b : Bool) → Keeps B stored L P (exist_checked B usr b)
  unfolding exist_checked
  Keeps-exist_checked usr b = Any-if b _ _ (Any-pure _) (
      Keeps-or_respond B stored L P Any _ 500 _ (Keeps-create B stored L P usr)
        (λ u _. Keeps-created u))

  Keeps-validated : (usr : UserInfo) (e : Option GoError) → Keeps B stored L P (validated B usr e)
  Keeps-validated usr (some e) = Any-pure _
  Keeps-validated usr none =
      Keeps-or_respond B stored L P Any _ 500 _ (Ensures-if_exist B stored L P usr.username)
        (λ b _. Keeps-exist_checked usr b)

  pub Keeps-sign_up : (r : Request) → Keeps B stored L P (sign_up B r)
  unfolding sign_up
  Keeps-sign_up r =
      Keeps-or_respond B stored L P Any _ 400 _ (Any-lift _)
        (λ usr _. Keeps-validated usr (validate usr))

  Keeps-profile_get : (username : Str) → Keeps B stored L P (profile_get B username)
  unfolding profile_get
  Keeps-profile_get username =
      Keeps-or_respond B stored L P Any _ 500 _ (Ensures-get_profile B stored L P username)
        (λ v _. Any-pure _)

  Keeps-updated : (usr : UserInfo) (r : Result (Unit {0})) → Keeps B stored L P (updated B usr r)
  Keeps-updated usr (err e) = Any-pure _
  Keeps-updated usr (ok x) = Any-pure _

  Keeps-parsed_profile :
      (username : Str) (r : Result UserInfo) → Keeps B stored L P (parsed_profile B username r)
  Keeps-parsed_profile username (err e) = Any-pure _
  Keeps-parsed_profile username (ok usr) =
      Any-bind _ _ (Any-attempt _ (Ensures-user_update B stored L P usr))
        (λ r. Any-bind _ _ (Keeps-updated usr r) (λ _. Any-pure _))

  Keeps-profile_as : (r : Request) (who : Result Str) → Keeps B stored L P (profile_as B r who)
  unfolding profile_put
  Keeps-profile_as r (err e) = Any-pure _
  Keeps-profile_as r (ok username) =
      Any-if (str_eq r.method (codes "GET")) _ _
        (Any-bind _ _ (Keeps-profile_get username) (λ _. Any-pure _))
        (Any-if (str_eq r.method (codes "PUT")) _ _ (Keeps-parsed_profile username _) (Any-pure _))

  pub Keeps-profile : (r : Request) → Keeps B stored L P (profile B r)
  unfolding profile
  Keeps-profile r =
      Any-bind _ _ (Any-attempt _ (Keeps-authed_identities B stored L P r)) (Keeps-profile_as r)

  Keeps-token_read : (token : Str) (r : Result Value) → Keeps B stored L P (token_read B token r)
  Keeps-token_read token (err e) = search keeps_rules
  Keeps-token_read token (ok v) =
      Keeps-or_respond B stored L P Any _ 500 _ (Keeps-active_account B stored L P _ token)
        (λ _ _. Any-pure _)

  pub Keeps-verify_account : (r : Request) → Keeps B stored L P (verify_account B r)
  unfolding verify_account
  Keeps-verify_account r =
      Any-if (byte_length r.token == 0) _ _ (Any-pure _)
        (Any-bind _ _ (Any-attempt _ (Ensures-get_value B stored L P _)) (Keeps-token_read r.token))

  pub Keeps-send_verify_mail_handler :
      (r : Request) → Keeps B stored L P (send_verify_mail_handler B r)
  unfolding send_verify_mail_handler
  Keeps-send_verify_mail_handler r =
      Keeps-with_user B stored L P r _
        (λ u. Keeps-spawn _ _ (Keeps-send_verify_mail B stored L P u))

  Keeps-fatal_on_error :
      (m : M W (Unit {0})) → Keeps B stored L P m → Keeps B stored L P (fatal_on_error B m)
  Keeps-fatal_on_error m h = Any-bind _ _ (Any-attempt _ h) ended
    where
      ended :
          (r : Result (Unit {0})) → Keeps B stored L P (elim r [ ok _ ↦ pure tt | err e ↦ exit e ])
      ended (ok x) = Any-pure _
      ended (err e) = Any-exit _

  Keeps-modify_password_ldap :
      (p : Password) (username : Str) → Keeps B stored L P (modify_password_ldap B p username)
  unfolding modify_password_ldap
  Keeps-modify_password_ldap p username =
      Any-bind _ _ (Keeps-fatal_on_error _ (Ensures-ldap_dial B stored L P)) (λ _.
        Any-bind _ _ (Ensures-ldap_bind B stored L P _ _)
          (λ _. Keeps-fatal_on_error _ (Ensures-ldap_password_modify B stored L P _ _)))

  Keeps-modify : (p : Password) (username : Str) → Keeps B stored L P (modify B p username)
  unfolding modify
  Keeps-modify p username = search (keeps_rules, Keeps-modify_password_ldap)

  pub Keeps-password_modify : (r : Request) → Keeps B stored L P (password_modify B r)
  unfolding password_modify
  Keeps-password_modify r =
      Keeps-or_respond B stored L P Any _ 401 _ (Keeps-authed_identities B stored L P r)
        (λ username _.
          Keeps-or_respond B stored L P Any _ 400 _ (Any-lift _)
            (λ p _. Keeps-answer_nil B stored L P _ (Keeps-modify p username)))
