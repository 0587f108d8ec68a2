-- ===== src/Errors.antt =====
-- errcode.go: the error codes, their texts and LdpError; and the Go `error` values that the
-- program tells apart (http_util.go genRespJson, etcd.go checkIfNotFound, common.go
-- checkIfExistldap).
use datafoundry_proxy.Base.{
  ℕ, Bool, false, List, [], ◌∷◌, Option, none, some, Str, codes, ◌==◌, if◌then◌else◌,
}

abbrev pub err_code_ok : ℕ
err_code_ok = 1200

abbrev pub err_code_bad_request : ℕ
err_code_bad_request = 1400

abbrev pub err_code_org_name_too_short : ℕ
err_code_org_name_too_short = 14000

abbrev pub err_code_name_too_short : ℕ
err_code_name_too_short = 14001

abbrev pub err_code_user_modify_not_allowed : ℕ
err_code_user_modify_not_allowed = 14002

abbrev pub err_code_action_not_support : ℕ
err_code_action_not_support = 14003

abbrev pub err_code_invalid_token : ℕ
err_code_invalid_token = 14004

abbrev pub err_code_password_empty : ℕ
err_code_password_empty = 14005

abbrev pub err_code_password_length_mismatch : ℕ
err_code_password_length_mismatch = 14006

abbrev pub err_code_email_invalid : ℕ
err_code_email_invalid = 14007

abbrev pub err_code_name_invalide : ℕ
err_code_name_invalide = 14008

abbrev pub err_code_org_not_empty : ℕ
err_code_org_not_empty = 14009

abbrev pub err_code_quota_exceeded : ℕ
err_code_quota_exceeded = 140010

abbrev pub err_code_last_admin_restricted : ℕ
err_code_last_admin_restricted = 140011

abbrev pub err_code_user_invited : ℕ
err_code_user_invited = 140012

abbrev pub err_code_user_exists_in_org : ℕ
err_code_user_exists_in_org = 140013

abbrev pub err_code_user_not_registered : ℕ
err_code_user_not_registered = 140014

abbrev pub err_code_unauthorized : ℕ
err_code_unauthorized = 1401

abbrev pub err_code_forbidden : ℕ
err_code_forbidden = 1403

abbrev pub err_code_permission_denied : ℕ
err_code_permission_denied = 14030

abbrev pub err_code_not_found : ℕ
err_code_not_found = 1404

abbrev pub err_code_org_not_found : ℕ
err_code_org_not_found = 14040

abbrev pub err_code_user_not_found : ℕ
err_code_user_not_found = 14041

abbrev pub err_code_method_not_allowed : ℕ
err_code_method_not_allowed = 1405

abbrev pub err_code_org_exist : ℕ
err_code_org_exist = 14090

abbrev pub err_code_user_exist : ℕ
err_code_user_exist = 14091

abbrev pub err_code_user_exist_on_ldap : ℕ
err_code_user_exist_on_ldap = 14092

abbrev pub err_code_service_unavailable : ℕ
err_code_service_unavailable = 1503

abbrev pub err_code_unknown_error : ℕ
err_code_unknown_error = 1600

abbrev pub ldap_magic_number : ℕ
ldap_magic_number = 2000

abbrev pub etcd_magic_number : ℕ
etcd_magic_number = 3000

-- `errText`, in the order of the source.
unfoldable pub err_texts : List (ℕ × Str)
err_texts =
    (err_code_ok, codes "OK")
    ∷ (err_code_bad_request, codes "Bad request")
    ∷ (err_code_org_name_too_short, codes "Organization name too short")
    ∷ (err_code_name_too_short, codes "Name too short")
    ∷ (err_code_user_modify_not_allowed, codes "Can't modify username")
    ∷ (err_code_action_not_support, codes "Not supported action")
    ∷ (err_code_invalid_token, codes "Invalid token")
    ∷ (err_code_password_empty, codes "Password can't be empty")
    ∷ (err_code_password_length_mismatch, codes "Password length must be 8 to 12 characters")
    ∷ (err_code_email_invalid, codes "Invalid email address")
    ∷ (err_code_name_invalide, codes "Invalid username")
    ∷ (err_code_org_not_empty, codes "Member(s) still in orgnazition")
    ∷ (err_code_quota_exceeded, codes "Quota execeded")
    ∷ (err_code_last_admin_restricted, codes "Last admin restricted")
    ∷ (err_code_user_invited, codes "User already invited")
    ∷ (err_code_user_exists_in_org, codes "User already in orgnazition")
    ∷ (err_code_user_not_registered, codes "User not registered")
    ∷ (err_code_unauthorized, codes "Unauthorized")
    ∷ (err_code_forbidden, codes "Forbidden")
    ∷ (err_code_permission_denied, codes "Permission denied")
    ∷ (err_code_not_found, codes "Not found")
    ∷ (err_code_org_not_found, codes "Orgnazition not found")
    ∷ (err_code_user_not_found, codes "User not found")
    ∷ (err_code_method_not_allowed, codes "Method not allowed")
    ∷ (err_code_org_exist, codes "Organization already exists")
    ∷ (err_code_user_exist, codes "User exists")
    ∷ (err_code_user_exist_on_ldap, codes "User exists on LDAP")
    ∷ (err_code_service_unavailable, codes "Service unavailable")
    ∷ (err_code_unknown_error, codes "Unknown error")
    ∷ []

-- A read of Go's map: the zero value, "", at a missing key.
pub read_text : List (ℕ × Str) → ℕ → Str
read_text [] code = []
read_text ((k, text) ∷ rest) code = if k == code then text else read_text rest code

unfoldable pub err_text : ℕ → Str
unfolding err_texts read_text
err_text code = read_text err_texts code

-- The struct LdpError.
pub record LdpError : Type 0 where
  pub code : ℕ
  pub message : Str

-- The `error` values by their dynamic types. `etcd` is client.Error and `etcd_ptr` *client.Error;
-- `plain` is an error of any other type, with its text.
pub data GoError : Type 0 where
  ldp : LdpError → GoError
  etcd : ℕ → Str → GoError
  etcd_ptr : ℕ → Str → GoError
  ldap : ℕ → GoError
  openshift : ℕ → Str → GoError
  plain : Str → GoError

-- `LdpError.New`, and `ldpErrorNew`, which calls it on the zero value.
unfoldable pub ldp_error_new : ℕ → GoError
ldp_error_new code = ldp (record { code = code; message = err_text code })

-- client.ErrorCodeKeyNotFound of the etcd client.
abbrev pub error_code_key_not_found : ℕ
error_code_key_not_found = 100

-- ldap.LDAPResultEntryAlreadyExists of the LDAP client.
abbrev pub ldap_result_entry_already_exists : ℕ
ldap_result_entry_already_exists = 68

-- `none` is Go's nil error.
unfoldable pub check_if_not_found : Option GoError → Bool
check_if_not_found none = false
check_if_not_found (some (etcd code _)) = code == error_code_key_not_found
check_if_not_found _ = false

unfoldable pub check_if_exist_ldap : Option GoError → Bool
check_if_exist_ldap none = false
check_if_exist_ldap (some (ldap code)) = code == ldap_result_entry_already_exists
check_if_exist_ldap _ = false
