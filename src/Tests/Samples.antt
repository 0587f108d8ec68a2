-- ===== src/Tests/Samples.antt =====
-- An organization with an admin and a member, their profiles, and a world that stores them.
use datafoundry_proxy.Base.{
  ◌≡◌, refl, Bool, true, false, List, [], ◌∷◌, some, Str, codes, str_eq, subst, if◌then◌else◌,
}
use datafoundry_proxy.Errors.{GoError}
use datafoundry_proxy.Types.{
  OrgBrief, UserInfo, OrgMember, Orgnazition, empty_user, empty_org, org_member_status_joined,
  org_member_status_invited,
}
use datafoundry_proxy.Effect.{Result, ok, err}
use datafoundry_proxy.Json.{Json, encode_items, obj, field, end, str, bool}
use datafoundry_proxy.Json.Codec.{
  Value, json, read_org, decode_org, encode_user, encode_org, encode_status, encode_quota,
  encode_brief, unmarshal, unmarshal_error,
}
use datafoundry_proxy.Json.Codec.RoundTrip.{read_org-encode_org}
use datafoundry_proxy.Paths.{etcd_profile_path, etcd_org_path}
use datafoundry_proxy.Store.Keeps.{OrgsAre}
use datafoundry_proxy.Auth.{Request}
use datafoundry_proxy.Tests.World.{World, lookup, world_stored}

abbrev pub acme_id : Str
acme_id = codes "alice-org-acme"

abbrev pub acme_brief : OrgBrief
acme_brief = record { org_id = acme_id; org_name = codes "acme"; org_alias = [] }

abbrev pub profile_named : Str → UserInfo
profile_named name = record empty_user {
  username = name;
  email = codes "x@example.com";
  org_list = acme_brief ∷ [];
}

abbrev pub alice : UserInfo
alice = profile_named (codes "alice")

abbrev pub bob : UserInfo
bob = profile_named (codes "bob")

abbrev pub carol : UserInfo
carol = record (profile_named (codes "carol")) { org_list = [] }

abbrev pub joined_as : Str → Bool → OrgMember
joined_as name admin = record {
  member_name = name;
  is_admin = admin;
  privileged_by = codes "alice";
  joined_at = codes "2016-07-01T00:00:00Z";
  status = org_member_status_joined;
}

abbrev pub acme : Orgnazition
acme = record empty_org {
  id = acme_id;
  name = codes "acme";
  create_by = codes "alice";
  member_list = joined_as (codes "alice") true ∷ joined_as (codes "bob") false ∷ [];
  role_binding = true;
}

-- The same with an admin that is only invited in place of bob.
abbrev pub invited_dave : Orgnazition
invited_dave = record acme {
  member_list =
      joined_as (codes "alice") true
      ∷ record (joined_as (codes "dave") true) { status = org_member_status_invited }
      ∷ [];
}

abbrev pub stored_values : Orgnazition → List (Str × Value)
stored_values o =
    (etcd_org_path acme_id, json (encode_org o))
    ∷ (etcd_profile_path (codes "alice"), json (encode_user alice))
    ∷ (etcd_profile_path (codes "bob"), json (encode_user bob))
    ∷ (etcd_profile_path (codes "carol"), json (encode_user carol))
    ∷ []

-- The world that stores this organization.
abbrev pub world_of : Orgnazition → World
world_of o = record { values = stored_values o; accounts = codes "dave" ∷ []; requests = 0 }

abbrev pub world0 : World
world0 = world_of acme

-- A request of a user, with a body.
abbrev pub request : Str → Str → Str → Result Json → Request
request method caller action body = record {
  method = method;
  authorization = caller;
  body = body;
  org = acme_id;
  action = action;
  token = [];
}

abbrev pub member_body : Str → Bool → Result Json
member_body name admin =
    ok (obj (field (codes "member_name") (str name) (field (codes "privileged") (bool admin) end)))

abbrev pub org_body : Str → Result Json
org_body name = ok (obj (field (codes "name") (str name) end))

abbrev ReadsAs : (Orgnazition → Type 0) → Value → Type 0
ReadsAs P v = (o : Orgnazition) → read_org v ≡ ok o → P o

abbrev AllRead : (Orgnazition → Type 0) → List (Str × Value) → Type 0
AllRead P [] = Unit
AllRead P ((k, v) ∷ l) = ReadsAs P v × AllRead P l

read-lookup :
    (P : Orgnazition → Type 0) (l : List (Str × Value)) (k : Str) (v : Value)
    → AllRead P l
    → lookup k l ≡ some v
    → ReadsAs P v
read-lookup P [] k v h e = cc
read-lookup P ((j, u) ∷ l) k v h e = step (str_eq j k) e (λ i. read-lookup P l k v h.1 i)
  where
    step :
        (b : Bool)
        → (if b then some u else lookup k l) ≡ some v
        → (lookup k l ≡ some v → ReadsAs P v)
        → ReadsAs P v
    step true i rest = λ o r. h.0 o (cc)
    step false i rest = rest i

no_org : (P : Orgnazition → Type 0) (v : Value) {e : GoError} → read_org v ≡ err e → ReadsAs P v
no_org P v r o k = cc

profiles_are_no_orgs :
    (read_org (json (encode_user alice)) ≡ err unmarshal_error)
    × (read_org (json (encode_user bob)) ≡ err unmarshal_error)
    × (read_org (json (encode_user carol)) ≡ err unmarshal_error)
unfolding read_org unmarshal decode_org encode_user encode_status encode_quota encode_items
    encode_brief
profiles_are_no_orgs = (refl, refl, refl)

-- The world's only organization.
pub world_of-OrgsAre :
    (P : Orgnazition → Type 0) (org : Orgnazition) → P org → OrgsAre world_stored P (world_of org)
world_of-OrgsAre P org h id v o s e =
    read-lookup P (stored_values org) (etcd_org_path id) v
      (
        (λ o' r. subst P (cc (read_org-encode_org org)) h),
        (
          no_org P _ profiles_are_no_orgs.0,
          (no_org P _ profiles_are_no_orgs.1, (no_org P _ profiles_are_no_orgs.2, tt)),
        ),
      )
      s o e

pub world0-OrgsAre : (P : Orgnazition → Type 0) → P acme → OrgsAre world_stored P world0
world0-OrgsAre P h = world_of-OrgsAre P acme h
