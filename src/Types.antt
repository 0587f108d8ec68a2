-- ===== src/Types.antt =====
-- types.go: the records that the handlers read, store and answer with. The status fields are
-- strings there too, so that a request or a stored text can hold any value.
use datafoundry_proxy.Base.{Bool, false, List, [], Str, codes}
use datafoundry_proxy.Base.Int.{ℤ, pos}

pub record OrgBrief : Type 0 where
  pub org_id : Str
  pub org_name : Str
  pub org_alias : Str

pub record UserQuota : Type 0 where
  pub org_quota : ℤ
  pub org_used : ℤ

pub record UserStatus : Type 0 where
  pub active : Bool
  pub initialized : Bool
  pub from_ldap : Bool
  pub phase : Str
  pub quota : UserQuota

pub record UserInfo : Type 0 where
  pub username : Str
  pub password : Str
  pub aliasname : Str
  pub email : Str
  pub create_time : Str
  pub org_list : List OrgBrief
  pub status : UserStatus
  pub token : Str

pub record OrgMember : Type 0 where
  pub member_name : Str
  pub is_admin : Bool
  pub privileged_by : Str
  pub joined_at : Str
  pub status : Str

pub record Orgnazition : Type 0 where
  pub id : Str
  pub name : Str
  pub create_by : Str
  pub create_time : Str
  pub member_list : List OrgMember
  pub status : Str
  pub role_binding : Bool
  pub reason : Str

pub record Password : Type 0 where
  pub old_password : Str
  pub new_password : Str

-- UserStatusPhase
abbrev pub user_status_active : Str
user_status_active = codes "active"

abbrev pub user_status_inactive : Str
user_status_inactive = codes "inactive"

-- MemberStatusPhase
abbrev pub org_member_status_invited : Str
org_member_status_invited = codes "invited"

abbrev pub org_member_status_joined : Str
org_member_status_joined = codes "joined"

abbrev pub org_member_status_none : Str
org_member_status_none = codes "none"

-- The zero values of Go: `new(T)`.
abbrev pub empty_brief : OrgBrief
empty_brief = record { org_id = []; org_name = []; org_alias = [] }

abbrev pub empty_quota : UserQuota
empty_quota = record { org_quota = pos 0; org_used = pos 0 }

abbrev pub empty_status : UserStatus
empty_status = record {
  active = false;
  initialized = false;
  from_ldap = false;
  phase = [];
  quota = empty_quota;
}

abbrev pub empty_user : UserInfo
empty_user = record {
  username = [];
  password = [];
  aliasname = [];
  email = [];
  create_time = [];
  org_list = [];
  status = empty_status;
  token = [];
}

abbrev pub empty_member : OrgMember
empty_member = record {
  member_name = [];
  is_admin = false;
  privileged_by = [];
  joined_at = [];
  status = [];
}

abbrev pub empty_org : Orgnazition
empty_org = record {
  id = [];
  name = [];
  create_by = [];
  create_time = [];
  member_list = [];
  status = [];
  role_binding = false;
  reason = [];
}

abbrev pub empty_password : Password
empty_password = record { old_password = []; new_password = [] }
