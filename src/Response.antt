-- ===== src/Response.antt =====
-- http_util.go: the answers of the handlers (RespError, RespOK, genRespJson).
use datafoundry_proxy.Base.{ℕ, ◌+◌, List, Option, none, some, Str}
use datafoundry_proxy.Errors.{
  GoError, ldp, etcd, etcd_ptr, ldap, openshift, plain, err_text, err_code_ok,
  err_code_unknown_error, ldap_magic_number, etcd_magic_number,
}
use datafoundry_proxy.Types.{UserInfo, Orgnazition}

-- types.go APIResponse, with the argument of http.StatusText in place of the text that it gives.
pub record ApiResponse : Type 0 where
  pub code : ℕ
  pub message : Str
  pub status_of : ℕ

-- What a handler writes: the JSON of an answer, or a page.
pub data Content : Type 0 where
  api : ApiResponse → Content
  user : UserInfo → Content
  org : Orgnazition → Content
  orgs : List Orgnazition → Content
  verify_success verify_fail : Content

pub record Response : Type 0 where
  pub http_code : ℕ
  pub content : Content

-- genRespJson; `ldap_message` is the map of the LDAP client from result codes to texts.
unfoldable pub gen_resp_json : (ℕ → Str) → ℕ → Option GoError → ApiResponse
gen_resp_json ldap_message http_code none = record {
  code = err_code_ok;
  message = err_text err_code_ok;
  status_of = http_code;
}
gen_resp_json ldap_message http_code (some (ldap result_code)) = record {
  code = result_code + ldap_magic_number;
  message = ldap_message result_code;
  status_of = http_code;
}
gen_resp_json ldap_message http_code (some (etcd code message)) = record {
  code = code + etcd_magic_number;
  message = message;
  status_of = http_code;
}
gen_resp_json ldap_message http_code (some (etcd_ptr code message)) = record {
  code = code + etcd_magic_number;
  message = message;
  status_of = http_code;
}
gen_resp_json ldap_message http_code (some (ldp e)) = record {
  code = e.code;
  message = e.message;
  status_of = http_code;
}
gen_resp_json ldap_message http_code (some (openshift code message)) = record {
  code = code;
  message = message;
  status_of = code;
}
gen_resp_json ldap_message http_code (some (plain text)) = record {
  code = err_code_unknown_error;
  message = text;
  status_of = http_code;
}
