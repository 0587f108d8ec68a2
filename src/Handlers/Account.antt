-- ===== src/Handlers/Account.antt =====
-- The handlers of accounts: signup.go, profile.go, verify_account.go, send_verify_email.go and
-- password_modify.go.
pub mod Keeps
use datafoundry_proxy.Base.{
  ℕ, Bool, true, false, not, ◌||◌, List, [], ◌∷◌, ◌++◌, Option, none, some, Str, codes, str_eq, ltb,
  ◌==◌, byte_length, if◌then◌else◌,
}
use datafoundry_proxy.Errors.{
  GoError, ldp_error_new, check_if_not_found, err_code_invalid_token, err_code_user_exist,
  err_code_user_exist_on_ldap, err_code_user_modify_not_allowed, err_code_password_empty,
  err_code_password_length_mismatch,
}
use datafoundry_proxy.Types.{UserInfo, Password, empty_user, empty_password}
use datafoundry_proxy.Effect.{
  Result, ok, err, M, pure, fail, panic, exit, lift, run, attempt, guard, ◌>>=◌, ◌>>◌,
}
use datafoundry_proxy.Json.Codec.{Value, text, json, unmarshal, decode_user, decode_password}
use datafoundry_proxy.Paths.{etcd_verify_path}
use datafoundry_proxy.Backend.{Backend}
use datafoundry_proxy.Response.{Response, user, verify_success, verify_fail}
use datafoundry_proxy.Store.{get_value, get_profile, user_update, if_exist}
use datafoundry_proxy.Auth.{Request, parse_request_body, authed_identities}
use datafoundry_proxy.User.Account.{validate, create, send_verify_mail, active_account}
use datafoundry_proxy.Handlers.{
  resp_error, resp_ok, resp_ok_nil, respond, or_respond, answer_nil, with_user,
}

module _ {W : Type 0} (B : Backend W) where
  -- A goroutine, run to its end behind the answer; its error is logged.
  abbrev pub spawn : M W (Unit {0}) → Response → M W Response
  spawn m resp = do _ ← attempt m; pure resp

  -- `SignUp` after `Create`.
  unfoldable pub created : UserInfo → M W Response
  created usr =
      if usr.status.from_ldap
      then pure (resp_error B (ldp_error_new err_code_user_exist_on_ldap) 202)
      else spawn (send_verify_mail B usr) (resp_ok B (user usr))

  -- `SignUp` after `IfExist`.
  unfoldable pub exist_checked : UserInfo → Bool → M W Response
  exist_checked usr exist =
      if exist
      then pure (resp_error B (ldp_error_new err_code_user_exist) 409)
      else or_respond B (create B usr) 500 created

  abbrev pub validated : UserInfo → Option GoError → M W Response
  validated usr (some e) = pure (resp_error B e 400)
  validated usr none = or_respond B (if_exist B usr.username) 500 (exist_checked usr)

  unfoldable pub sign_up : Request → M W Response
  sign_up r =
      or_respond B (lift (parse_request_body decode_user empty_user r)) 400
        (λ usr. validated usr (validate usr))

  -- `Profile` for GET: an error of decoding is logged, and what was decoded is the answer.
  unfoldable pub profile_get : Str → M W Response
  profile_get username =
      or_respond B (get_profile B username) 500
        (λ v. pure (resp_ok B (user (unmarshal decode_user empty_user v).0)))

  abbrev pub updated : UserInfo → Result (Unit {0}) → M W (List Response)
  updated usr (err e) = pure (resp_error B e 400 ∷ [])
  updated usr (ok _) = pure (resp_ok B (user usr) ∷ [])

  abbrev pub parsed_profile : Str → Result UserInfo → M W (List Response)
  parsed_profile username (err e) = pure (resp_error B e 400 ∷ [])
  parsed_profile username (ok usr) = do
    r ← attempt (user_update B usr)
    answers ← updated usr r
    pure (
        if str_eq usr.username username
        then answers
        else resp_error B (ldp_error_new err_code_user_modify_not_allowed) 400 ∷ answers)

  -- `Profile` for PUT: the answers in the order in which they are written. There is no return after
  -- the one that refuses another user's name.
  unfoldable pub profile_put : Str → Request → M W (List Response)
  profile_put username r = parsed_profile username (parse_request_body decode_user empty_user r)

  abbrev pub one_answer : M W Response → M W (List Response)
  one_answer m = do a ← m; pure (a ∷ [])

  abbrev pub profile_as : Request → Result Str → M W (List Response)
  profile_as r (err e) = pure (resp_error B e 401 ∷ [])
  profile_as r (ok username) =
      if str_eq r.method (codes "GET")
      then one_answer (profile_get username)
      else if str_eq r.method (codes "PUT")
      then profile_put username r
      else pure []

  unfoldable pub profile : Request → M W (List Response)
  profile r = do who ← attempt (authed_identities B r); profile_as r who

  -- `user.(string)`: every value of etcd is a string, and one that holds the JSON of a struct is no
  -- user's name; the keys of verification hold names alone.
  abbrev pub name_in : Value → Str
  name_in (text s) = s
  name_in (json j) = []

  abbrev pub token_read : Str → Result Value → M W Response
  token_read token (err e) =
      if check_if_not_found (some e)
      then pure (record { http_code = 404; content = verify_fail })
      else pure (resp_error B e 500)
  token_read token (ok v) =
      or_respond B (active_account B (name_in v) token) 500
        (λ _. pure (record { http_code = 200; content = verify_success }))

  unfoldable pub verify_account : Request → M W Response
  verify_account r =
      if byte_length r.token == 0
      then pure (resp_error B (ldp_error_new err_code_invalid_token) 400)
      else (do v ← attempt (get_value B (etcd_verify_path r.token)); token_read r.token v)

  -- The handler `SendVerifyMail`.
  unfoldable pub send_verify_mail_handler : Request → M W Response
  send_verify_mail_handler r =
      with_user B r (λ userinfo. spawn (send_verify_mail B userinfo) (resp_ok B (user userinfo)))

  abbrev pub fatal_on_error : M W (Unit {0}) → M W (Unit {0})
  fatal_on_error m = do r ← attempt m; (elim r [ ok _ ↦ pure tt | err e ↦ exit e ])

  -- `ModifyPasswordLdap`: an unreachable server, or a refused change, ends the process.
  unfoldable pub modify_password_ldap : Password → Str → M W (Unit {0})
  modify_password_ldap p username = do
    _ ← fatal_on_error (run B.ldap_dial)
    _ ← run (B.ldap_bind (B.ldap_base_dn username) p.old_password)
    fatal_on_error (run (B.ldap_password_modify p.old_password p.new_password))

  -- `Password.Modify`
  unfoldable pub modify : Password → Str → M W (Unit {0})
  modify p username =
      if byte_length p.new_password == 0 || byte_length p.old_password == 0
      then fail (ldp_error_new err_code_password_empty)
      else if ltb 12 (byte_length p.new_password) || ltb (byte_length p.new_password) 8
      then fail (ldp_error_new err_code_password_length_mismatch)
      else modify_password_ldap p username

  unfoldable pub password_modify : Request → M W Response
  password_modify r = or_respond B (authed_identities B r) 401 (λ username.
      or_respond B (lift (parse_request_body decode_password empty_password r)) 400
        (λ p. answer_nil B (modify p username)))
