-- ===== src/User/Account.antt =====
-- user.go: signing up (Validate, Create, AddToLdap, AddToEtcd) and the mail that verifies an
-- account (SendVerifyMail, AddToVerify); verify_account.go activeAccount.
pub mod Keeps
pub mod Outcomes
pub mod Activate
use datafoundry_proxy.Base.{
  ℕ, Bool, true, false, not, ◌||◌, List, [], ◌∷◌, ◌++◌, Option, none, some, Str, codes, ltb,
  byte_length, ◌+◌, ◌-◌, ◌/◌, ◌%◌, if◌then◌else◌,
}
use datafoundry_proxy.Base.Int.{pos}
use datafoundry_proxy.Errors.{
  GoError, ldp_error_new, check_if_exist_ldap, err_code_name_invalide, err_code_email_invalid,
  err_code_password_length_mismatch,
}
use datafoundry_proxy.Types.{UserQuota, UserStatus, UserInfo, user_status_inactive}
use datafoundry_proxy.Effect.{
  Result, ok, err, M, pure, fail, exit, lift, run, call, attempt, guard, ◌>>=◌, ◌>>◌,
}
use datafoundry_proxy.Json.Codec.{Value, text, json, read_user, encode_user}
use datafoundry_proxy.Paths.{etcd_profile_path, etcd_verify_path}
use datafoundry_proxy.Backend.{Backend}
use datafoundry_proxy.Store.{get_value, set_value, set_value_by_ttl, delete, user_update}
use datafoundry_proxy.Validation.{Reason, validate_user_name, validate_email}

abbrev is_refused : Option Reason → Bool
is_refused none = false
is_refused (some _) = true

-- `UserInfo.Validate`: nil, or the first thing that is wrong.
unfoldable pub validate : UserInfo → Option GoError
validate usr =
    if is_refused (validate_user_name usr.username)
    then some (ldp_error_new err_code_name_invalide)
    else if not (validate_email usr.email)
    then some (ldp_error_new err_code_email_invalid)
    else if ltb 12 (byte_length usr.password) || ltb (byte_length usr.password) 8
    then some (ldp_error_new err_code_password_length_mismatch)
    else none

-- `%x` of a byte.
hex_digit : ℕ → ℕ
hex_digit d = if ltb d 10 then b'0' + d else b'a' + (d - 10)

hex : List ℕ → Str
hex [] = []
hex (b ∷ l) = hex_digit (b / 16) ∷ hex_digit (b % 16) ∷ hex l

-- The fields that `AddToEtcd` sets before it writes the profile.
unfoldable pub fresh_profile : Str → UserInfo → UserInfo
fresh_profile time usr =
    let quota : UserQuota = record (usr.status.quota) { org_quota = pos 1 } in
    let status : UserStatus = record (usr.status) {
      phase = user_status_inactive;
      active = false;
      initialized = false;
      quota = quota;
    } in
    record usr { password = []; create_time = time; status = status }

module _ {W : Type 0} (B : Backend W) where
  -- `AddToLdap`
  unfoldable pub add_to_ldap : UserInfo → M W (Unit {0})
  add_to_ldap usr = do
    _ ← run B.ldap_dial
    _ ← run (B.ldap_bind B.ldap_admin_user B.ldap_admin_password)
    run (B.ldap_add (B.ldap_base_dn usr.username) usr.username usr.password usr.email)

  -- `AddToEtcd`
  unfoldable pub add_to_etcd : UserInfo → M W UserInfo
  add_to_etcd usr = do
    time ← call B.now
    let usr' : UserInfo = fresh_profile time usr
    _ ← set_value B (etcd_profile_path usr'.username) (json (encode_user usr'))
    pure usr'

  -- After `AddToLdap` in `Create`: any error but that of an existing entry ends the process.
  unfoldable pub after_ldap : UserInfo → Result (Unit {0}) → M W UserInfo
  after_ldap usr (ok _) = add_to_etcd usr
  after_ldap usr (err e) =
      let status : UserStatus = record (usr.status) { from_ldap = true } in
      if check_if_exist_ldap (some e) then add_to_etcd (record usr { status = status }) else exit e

  -- `UserInfo.Create`
  unfoldable pub create : UserInfo → M W UserInfo
  create usr = do r ← attempt (add_to_ldap usr); after_ldap usr r

  -- genRandomToken
  unfoldable pub gen_random_token : M W Str
  unfolding hex hex_digit
  gen_random_token = do b ← run (B.rand_read 16); pure (hex b)

  -- `AddToVerify`: the token stands for the name for 24 hours.
  unfoldable pub add_to_verify : UserInfo → M W Str
  add_to_verify user = do
    verifytoken ← gen_random_token
    _ ← set_value_by_ttl B (etcd_verify_path verifytoken) (text user.username) 86400
    pure verifytoken

  -- `UserInfo.SendVerifyMail`, with the parts of the mail that vary: the receiver, the name and the
  -- link.
  unfoldable pub send_verify_mail : UserInfo → M W (Unit {0})
  send_verify_mail usr = do
    verifytoken ← add_to_verify usr
    run (
        B.send_mail usr.email usr.username
          (B.api_addr ++ (codes "/verify_account/" ++ verifytoken)))

  -- verify_account.go activeAccount
  unfoldable pub active_account : Str → Str → M W (Unit {0})
  active_account user token = do
    profile ← get_value B (etcd_profile_path user)
    userinfo ← lift (read_user profile)
    let status : UserStatus = record (userinfo.status) { active = true }
    let userinfo' : UserInfo = record userinfo { status = status }
    _ ← set_value B (etcd_profile_path userinfo'.username) (json (encode_user userinfo'))
    delete B (etcd_verify_path token)
