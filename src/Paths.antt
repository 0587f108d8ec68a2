-- ===== src/Paths.antt =====
-- The keys of etcd (common.go etcdProfilePath, etcdOrgPath, etcdGeneratePath with the formats of
-- config.go).
use mathlib.Core.List.{append_cancel_left, append_cancel_right}
use datafoundry_proxy.Base.{◌≡◌, ◌≢◌, ap, arith, Str, codes, byte_at, ◌++◌}

abbrev pub etcd_prefix : Str
etcd_prefix = codes "datafoundry.io/"

-- fmt.Sprintf("datafoundry.io/users/%s/profile", username)
unfoldable pub etcd_profile_path : Str → Str
etcd_profile_path username = etcd_prefix ++ (codes "users/" ++ (username ++ codes "/profile"))

-- fmt.Sprintf("datafoundry.io/organizations/%s", orgid)
unfoldable pub etcd_org_path : Str → Str
etcd_org_path orgid = etcd_prefix ++ (codes "organizations/" ++ orgid)

-- fmt.Sprintf("datafoundry.io/verify/%s", key): the program's only use of etcdGeneratePath
unfoldable pub etcd_verify_path : Str → Str
etcd_verify_path key = etcd_prefix ++ (codes "verify/" ++ key)

pub profile_path-ne-org_path : (u o : Str) → etcd_profile_path u ≢ etcd_org_path o
unfolding etcd_profile_path etcd_org_path
profile_path-ne-org_path u o h = absurd (omega (arith, ap (λ (s : Str). byte_at s 15) h))

pub verify_path-ne-org_path : (k o : Str) → etcd_verify_path k ≢ etcd_org_path o
unfolding etcd_verify_path etcd_org_path
verify_path-ne-org_path k o h = absurd (omega (arith, ap (λ (s : Str). byte_at s 15) h))

pub profile_path-ne-verify_path : (u k : Str) → etcd_profile_path u ≢ etcd_verify_path k
unfolding etcd_profile_path etcd_verify_path
profile_path-ne-verify_path u k h = absurd (omega (arith, ap (λ (s : Str). byte_at s 15) h))

-- Two organizations have one key only if they have one id.
pub org_path-injective : (a b : Str) → etcd_org_path a ≡ etcd_org_path b → a ≡ b
unfolding etcd_org_path
org_path-injective a b h = append_cancel_left (etcd_prefix ++ codes "organizations/") a b h

-- Two users have one profile key only if they have one name.
pub profile_path-injective : (a b : Str) → etcd_profile_path a ≡ etcd_profile_path b → a ≡ b
unfolding etcd_profile_path
profile_path-injective a b h =
    append_cancel_right a b (codes "/profile")
      (append_cancel_left (etcd_prefix ++ codes "users/") _ _ h)
