-- ===== src/Json/Codec/RoundTrip.antt =====
-- What is stored comes back: decoding the JSON of a user or an organization.
use datafoundry_proxy.Base.{◌≡◌, refl, Bool, true, [], ◌∷◌, List, Str}
use datafoundry_proxy.Base.Int.{in_int64}
use datafoundry_proxy.Types.{
  OrgBrief, UserQuota, UserStatus, UserInfo, OrgMember, Orgnazition, empty_brief, empty_member,
  empty_quota, empty_status, empty_user,
}
use datafoundry_proxy.Effect.{ok}
use datafoundry_proxy.Json.{arr, encode_items, decode_slice, decode_slice-encode_items}
use datafoundry_proxy.Json.Codec.{
  encode_brief, decode_brief, encode_quota, decode_quota, encode_status, decode_status, encode_user,
  decode_user, encode_member, decode_member, encode_org, decode_org, json, read_user, read_org,
}

decode_brief-encode_brief : (b : OrgBrief) → decode_brief empty_brief (encode_brief b) ≡ (b, true)
unfolding decode_brief encode_brief
decode_brief-encode_brief b = refl

decode_member-encode_member :
    (m : OrgMember) → decode_member empty_member (encode_member m) ≡ (m, true)
unfolding decode_member encode_member
decode_member-encode_member m = refl

decode_quota-encode_quota :
    (q : UserQuota)
    → in_int64 q.org_quota ≡ true
    → in_int64 q.org_used ≡ true
    → decode_quota empty_quota (encode_quota q) ≡ (q, true)
unfolding decode_quota encode_quota
decode_quota-encode_quota q h k = rw (h, k)

decode_status-encode_status :
    (s : UserStatus)
    → in_int64 s.quota.org_quota ≡ true
    → in_int64 s.quota.org_used ≡ true
    → decode_status empty_status (encode_status s) ≡ (s, true)
unfolding decode_status encode_status
decode_status-encode_status s h k = rw (decode_quota-encode_quota s.quota h k)

briefs_lem :
    (old l : List OrgBrief)
    → decode_slice decode_brief empty_brief old (arr (encode_items encode_brief l)) ≡ (l, true)
briefs_lem =
    decode_slice-encode_items decode_brief empty_brief encode_brief decode_brief-encode_brief

members_lem :
    (old l : List OrgMember)
    → decode_slice decode_member empty_member old (arr (encode_items encode_member l)) ≡ (l, true)
members_lem =
    decode_slice-encode_items decode_member empty_member encode_member decode_member-encode_member

-- A field that `omitempty` left out is the zero value again; `token` is lost.
module _ (name email time token : Str) (s : UserStatus) where
  abbrev user_with : Str → Str → List OrgBrief → Str → UserInfo
  user_with password aliasname org_list token' = record {
    username = name;
    password = password;
    aliasname = aliasname;
    email = email;
    create_time = time;
    org_list = org_list;
    status = s;
    token = token';
  }

  user_fields :
      decode_status empty_status (encode_status s) ≡ (s, true)
      → (password aliasname : Str) (l : List OrgBrief)
      → decode_user empty_user (encode_user (user_with password aliasname l token))
        ≡ (user_with password aliasname l [], true)
  unfolding decode_user encode_user
  user_fields h [] [] [] = rw h
  user_fields h [] [] (b ∷ l) = rw (h, briefs_lem [] (b ∷ l))
  user_fields h [] (a ∷ r) [] = rw h
  user_fields h [] (a ∷ r) (b ∷ l) = rw (h, briefs_lem [] (b ∷ l))
  user_fields h (p ∷ q) [] [] = rw h
  user_fields h (p ∷ q) [] (b ∷ l) = rw (h, briefs_lem [] (b ∷ l))
  user_fields h (p ∷ q) (a ∷ r) [] = rw h
  user_fields h (p ∷ q) (a ∷ r) (b ∷ l) = rw (h, briefs_lem [] (b ∷ l))

-- A user whose quota numbers fit in 64 bits, written as JSON and read back, is the same user with
-- an empty token: the token is the one field that is not written.
pub read_user-encode_user :
    (u : UserInfo)
    → in_int64 u.status.quota.org_quota ≡ true
    → in_int64 u.status.quota.org_used ≡ true
    → read_user (json (encode_user u)) ≡ ok (record u { token = [] })
unfolding read_user
read_user-encode_user u h k = rw (
    user_fields u.username u.email u.create_time u.token u.status
      (decode_status-encode_status u.status h k) u.password u.aliasname u.org_list)

module _ (id name by time status : Str) (l : List OrgMember) (bound : Bool) where
  abbrev org_with : Str → Orgnazition
  org_with reason = record {
    id = id;
    name = name;
    create_by = by;
    create_time = time;
    member_list = l;
    status = status;
    role_binding = bound;
    reason = reason;
  }

  org_fields :
      (reason : Str) → read_org (json (encode_org (org_with reason))) ≡ ok (org_with reason)
  unfolding read_org decode_org encode_org
  org_fields [] = rw (members_lem [] l)
  org_fields (c ∷ r) = rw (members_lem [] l)

-- An organization that is written as JSON is read back as it was.
pub read_org-encode_org : (o : Orgnazition) → read_org (json (encode_org o)) ≡ ok o
read_org-encode_org o =
    org_fields o.id o.name o.create_by o.create_time o.status o.member_list o.role_binding o.reason
