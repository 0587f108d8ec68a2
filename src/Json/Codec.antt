-- ===== src/Json/Codec.antt =====
-- The json tags of types.go: how each struct is written (`omitempty` leaves an empty value out, an
-- unexported field is never written) and read.
pub mod RoundTrip
use datafoundry_proxy.Base.{Bool, true, false, List, [], ◌∷◌, String, Str, codes, if◌then◌else◌}
use datafoundry_proxy.Errors.{GoError, plain}
use datafoundry_proxy.Types.{
  OrgBrief, UserQuota, UserStatus, UserInfo, OrgMember, Orgnazition, Password, empty_brief,
  empty_member, empty_user, empty_org, empty_password,
}
use datafoundry_proxy.Effect.{Result, ok, err}
use datafoundry_proxy.Json.{
  Json, null, bool, num, str, arr, obj, Fields, end, field, key_is, Decoder, decode_string,
  decode_bool, decode_int, decode_struct, decode_slice, encode_items,
}

-- `,omitempty` on a string and on a slice.
abbrev text_field : String → Str → Fields → Fields
text_field k [] rest = rest
text_field k (c ∷ s) rest = field (codes k) (str (c ∷ s)) rest

unfoldable pub encode_brief : OrgBrief → Json
encode_brief b = obj (
    field (codes "org_id") (str b.org_id)
      (field (codes "org_name") (str b.org_name) (field (codes "org_alias") (str b.org_alias) end)))

set_brief : OrgBrief → Str → Json → OrgBrief × Bool
set_brief b k v =
    if key_is k "org_id"
    then (let (x, fine) = decode_string b.org_id v in (record b { org_id = x }, fine))
    else if key_is k "org_name"
    then (let (x, fine) = decode_string b.org_name v in (record b { org_name = x }, fine))
    else if key_is k "org_alias"
    then (let (x, fine) = decode_string b.org_alias v in (record b { org_alias = x }, fine))
    else (b, true)

unfoldable pub decode_brief : Decoder OrgBrief
unfolding set_brief decode_struct decode_string key_is
decode_brief = decode_struct set_brief

-- The quota has no tags: its keys are the names of the fields.
unfoldable pub encode_quota : UserQuota → Json
encode_quota q =
    obj (field (codes "OrgQuota") (num q.org_quota) (field (codes "OrgUsed") (num q.org_used) end))

set_quota : UserQuota → Str → Json → UserQuota × Bool
set_quota q k v =
    if key_is k "orgquota"
    then (let (x, fine) = decode_int q.org_quota v in (record q { org_quota = x }, fine))
    else if key_is k "orgused"
    then (let (x, fine) = decode_int q.org_used v in (record q { org_used = x }, fine))
    else (q, true)

unfoldable pub decode_quota : Decoder UserQuota
unfolding set_quota decode_struct decode_int key_is
decode_quota = decode_struct set_quota

unfoldable pub encode_status : UserStatus → Json
encode_status s = obj (
    field (codes "active") (bool s.active) (
      field (codes "initialized") (bool s.initialized) (
        field (codes "from_ldap") (bool s.from_ldap) (
          field (codes "phase") (str s.phase) (field (codes "quota") (encode_quota s.quota) end)))))

set_status : UserStatus → Str → Json → UserStatus × Bool
set_status s k v =
    if key_is k "active"
    then (let (x, fine) = decode_bool s.active v in (record s { active = x }, fine))
    else if key_is k "initialized"
    then (let (x, fine) = decode_bool s.initialized v in (record s { initialized = x }, fine))
    else if key_is k "from_ldap"
    then (let (x, fine) = decode_bool s.from_ldap v in (record s { from_ldap = x }, fine))
    else if key_is k "phase"
    then (let (x, fine) = decode_string s.phase v in (record s { phase = x }, fine))
    else if key_is k "quota"
    then (let (x, fine) = decode_quota s.quota v in (record s { quota = x }, fine))
    else (s, true)

unfoldable pub decode_status : Decoder UserStatus
unfolding set_status decode_struct decode_string decode_bool key_is
decode_status = decode_struct set_status

abbrev list_field : String → List OrgBrief → Fields → Fields
list_field k [] rest = rest
list_field k (b ∷ l) rest = field (codes k) (arr (encode_items encode_brief (b ∷ l))) rest

-- json.Marshal writes a text that is valid UTF-8 as it is. The records that the program writes hold no
-- others: they are filled from texts that encoding/json has decoded, and from ASCII of the program.
-- `omitempty` has no effect on `status`, a struct. `token` is not exported.
unfoldable pub encode_user : UserInfo → Json
encode_user u = obj (
    field (codes "username") (str u.username) (
      text_field "password" u.password (
        text_field "nickname" u.aliasname (
          field (codes "email") (str u.email) (
            field (codes "creation_time") (str u.create_time) (
              list_field "orgnazitions" u.org_list
                (field (codes "status") (encode_status u.status) end)))))))

set_user : UserInfo → Str → Json → UserInfo × Bool
set_user u k v =
    if key_is k "username"
    then (let (x, fine) = decode_string u.username v in (record u { username = x }, fine))
    else if key_is k "password"
    then (let (x, fine) = decode_string u.password v in (record u { password = x }, fine))
    else if key_is k "nickname"
    then (let (x, fine) = decode_string u.aliasname v in (record u { aliasname = x }, fine))
    else if key_is k "email"
    then (let (x, fine) = decode_string u.email v in (record u { email = x }, fine))
    else if key_is k "creation_time"
    then (let (x, fine) = decode_string u.create_time v in (record u { create_time = x }, fine))
    else if key_is k "orgnazitions"
    then (let (x, fine) = decode_slice decode_brief empty_brief u.org_list v in
        (record u { org_list = x }, fine))
    else if key_is k "status"
    then (let (x, fine) = decode_status u.status v in (record u { status = x }, fine))
    else (u, true)

unfoldable pub decode_user : Decoder UserInfo
unfolding set_user decode_struct decode_string key_is
decode_user = decode_struct set_user

unfoldable pub encode_member : OrgMember → Json
encode_member m = obj (
    field (codes "member_name") (str m.member_name) (
      field (codes "privileged") (bool m.is_admin) (
        field (codes "privileged_by") (str m.privileged_by) (
          field (codes "joined_at") (str m.joined_at)
            (field (codes "status") (str m.status) end)))))

set_member : OrgMember → Str → Json → OrgMember × Bool
set_member m k v =
    if key_is k "member_name"
    then (let (x, fine) = decode_string m.member_name v in (record m { member_name = x }, fine))
    else if key_is k "privileged"
    then (let (x, fine) = decode_bool m.is_admin v in (record m { is_admin = x }, fine))
    else if key_is k "privileged_by"
    then (let (x, fine) = decode_string m.privileged_by v in (record m { privileged_by = x }, fine))
    else if key_is k "joined_at"
    then (let (x, fine) = decode_string m.joined_at v in (record m { joined_at = x }, fine))
    else if key_is k "status"
    then (let (x, fine) = decode_string m.status v in (record m { status = x }, fine))
    else (m, true)

unfoldable pub decode_member : Decoder OrgMember
unfolding set_member decode_struct decode_string decode_bool key_is
decode_member = decode_struct set_member

-- As in encode_user, the texts are valid UTF-8.
unfoldable pub encode_org : Orgnazition → Json
encode_org o = obj (
    field (codes "id") (str o.id) (
      field (codes "name") (str o.name) (
        field (codes "create_by") (str o.create_by) (
          field (codes "creation_time") (str o.create_time) (
            field (codes "members") (arr (encode_items encode_member o.member_list)) (
              field (codes "status") (str o.status) (
                field (codes "rolebinding") (bool o.role_binding)
                  (text_field "reason" o.reason end))))))))

set_org : Orgnazition → Str → Json → Orgnazition × Bool
set_org o k v =
    if key_is k "id"
    then (let (x, fine) = decode_string o.id v in (record o { id = x }, fine))
    else if key_is k "name"
    then (let (x, fine) = decode_string o.name v in (record o { name = x }, fine))
    else if key_is k "create_by"
    then (let (x, fine) = decode_string o.create_by v in (record o { create_by = x }, fine))
    else if key_is k "creation_time"
    then (let (x, fine) = decode_string o.create_time v in (record o { create_time = x }, fine))
    else if key_is k "members"
    then (let (x, fine) = decode_slice decode_member empty_member o.member_list v in
        (record o { member_list = x }, fine))
    else if key_is k "status"
    then (let (x, fine) = decode_string o.status v in (record o { status = x }, fine))
    else if key_is k "rolebinding"
    then (let (x, fine) = decode_bool o.role_binding v in (record o { role_binding = x }, fine))
    else if key_is k "reason"
    then (let (x, fine) = decode_string o.reason v in (record o { reason = x }, fine))
    else (o, true)

unfoldable pub decode_org : Decoder Orgnazition
unfolding set_org decode_struct decode_string decode_bool key_is
decode_org = decode_struct set_org

set_password : Password → Str → Json → Password × Bool
set_password p k v =
    if key_is k "old_password"
    then (let (x, fine) = decode_string p.old_password v in (record p { old_password = x }, fine))
    else if key_is k "new_password"
    then (let (x, fine) = decode_string p.new_password v in (record p { new_password = x }, fine))
    else (p, true)

unfoldable pub decode_password : Decoder Password
unfolding set_password decode_struct decode_string key_is
decode_password = decode_struct set_password

-- What a key of etcd holds: a text stored as it is, or the JSON of a struct.
pub data Value : Type 0 where
  text : Str → Value
  json : Json → Value

-- json.Unmarshal into a fresh variable: the value, and whether the error is nil. A stored text is
-- a user name, no JSON of an object.
unfoldable pub unmarshal : {A : Type 0} → Decoder A → A → Value → A × Bool
unmarshal decode zero_value (text s) = (zero_value, false)
unmarshal decode zero_value (json j) = decode zero_value j

-- The error's text, which the program passes on unread, is shortened.
abbrev pub unmarshal_error : GoError
unmarshal_error = plain (codes "json: cannot unmarshal")

-- The same where the code returns on an error.
abbrev pub checked : {A : Type 0} → A × Bool → Result A
checked (a, true) = ok a
checked (a, false) = err unmarshal_error

unfoldable pub read_user : Value → Result UserInfo
unfolding unmarshal
read_user v = checked (unmarshal decode_user empty_user v)

unfoldable pub read_org : Value → Result Orgnazition
unfolding unmarshal
read_org v = checked (unmarshal decode_org empty_org v)
