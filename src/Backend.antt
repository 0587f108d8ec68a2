-- ===== src/Backend.antt =====
-- What the program calls and does not implement: the clients of etcd and LDAP, HTTP requests to
-- the OpenShift server, mail, the clock and the random numbers; and its configuration. `W` is the
-- world that they act on. `Backend.Laws` states what the program relies on.
pub mod Laws
use datafoundry_proxy.Base.{ℕ, Bool, Option, List, Str}
use datafoundry_proxy.Effect.{Result}
use datafoundry_proxy.Json.Codec.{Value}

-- The RoleBinding of the OpenShift API, as far as the program sets it: its name, the role's name,
-- the subjects (of kind User) and the user names.
pub record RoleBinding : Type 0 where
  pub name : Str
  pub role_ref : Str
  pub subjects : List Str
  pub user_names : List Str
  pub resource_version : Str

-- The bodies of the requests.
pub data Body : Type 0 where
  no_body : Body
  project_request : Str → Str → Body
  role_binding : RoleBinding → Body

pub record HttpRequest : Type 0 where
  pub method : Str
  pub url : Str
  pub authorization : Str
  pub body : Body

-- `body` is the result of ioutil.ReadAll.
pub record HttpResponse : Type 0 where
  pub status_code : ℕ
  pub body : Result Value

pub record Backend (W : Type 0) : Type 0 where
  -- client.KeysAPI: Get, Set with the time to live in seconds, Delete
  pub etcd_get : Str → W → Result Value × W
  pub etcd_set : Str → Value → Option ℕ → W → Result (Unit {0}) × W
  pub etcd_delete : Str → W → Result (Unit {0}) × W
  -- http.Client.Do; and whether http.NewRequest accepts the URL
  pub http_do : HttpRequest → W → Result HttpResponse × W
  pub url_is_valid : Str → Bool
  -- json.Unmarshal into the User and the RoleBinding of the OpenShift API, and the one field that
  -- the program reads
  pub user_name : Value → Result Str
  pub resource_version : Value → Str
  -- ldap.Dial, Bind, Add and PasswordModify
  pub ldap_dial : W → Result (Unit {0}) × W
  pub ldap_bind : Str → Str → W → Result (Unit {0}) × W
  pub ldap_add : Str → Str → Str → Str → W → Result (Unit {0}) × W
  pub ldap_password_modify : Str → Str → W → Result (Unit {0}) × W
  -- ldap.LDAPResultCodeMap
  pub ldap_message : ℕ → Str
  -- messages.SendMail: to whom, and the text's variable parts
  pub send_mail : Str → Str → Str → W → Result (Unit {0}) × W
  -- time.Now().Format(time.RFC3339), rand.Intn and rand.Read
  pub now : W → Str × W
  pub rand_intn : ℕ → W → ℕ × W
  pub rand_read : ℕ → W → Result (List ℕ) × W
  -- DF_HOST, LDAP_ADMIN_USER, LDAP_ADMIN_PASSWORD, LDAP_BASE_DN as a format, and the address
  -- for the links of mails
  pub df_host : Str
  pub ldap_admin_user : Str
  pub ldap_admin_password : Str
  pub ldap_base_dn : Str → Str
  pub api_addr : Str
