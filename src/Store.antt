-- ===== src/Store.antt =====
-- etcd.go: the storage driver, and the reads and writes of users and organizations that go
-- through it (user.go Get, Update, IfExist; organization.go Get, Delete, Update, Create;
-- profile.go getProfile).
pub mod Keeps
pub mod Success
use datafoundry_proxy.Base.{ℕ, Bool, true, false, [], ◌∷◌, Option, none, some, Str, if◌then◌else◌}
use datafoundry_proxy.Errors.{GoError, ldp_error_new, err_code_not_found, check_if_not_found}
use datafoundry_proxy.Types.{UserInfo, Orgnazition}
use datafoundry_proxy.Effect.{Result, ok, err, M, pure, fail, lift, run, attempt, ◌>>=◌}
use datafoundry_proxy.Json.Codec.{Value, json, text, read_user, read_org, encode_user, encode_org}
use datafoundry_proxy.Paths.{etcd_profile_path, etcd_org_path, etcd_verify_path}
use datafoundry_proxy.Backend.{Backend}

module _ {W : Type 0} (B : Backend W) where
  -- Etcd.GetValue
  unfoldable pub get_value : Str → M W Value
  get_value key = run (B.etcd_get key)

  -- Etcd.SetValue: a string is stored as it is and a struct as its JSON, which is the difference
  -- between `text` and `json`. `dir` is false in every call.
  unfoldable pub set_value : Str → Value → M W (Unit {0})
  set_value key value = run (B.etcd_set key value none)

  -- Etcd.SetValuebyTTL
  unfoldable pub set_value_by_ttl : Str → Value → ℕ → M W (Unit {0})
  set_value_by_ttl key value ttl = run (B.etcd_set key value (some ttl))

  -- Etcd.Delete
  unfoldable pub delete : Str → M W (Unit {0})
  delete key = run (B.etcd_delete key)

  -- `UserInfo.Get` of a record with this name.
  unfoldable pub user_get : Str → M W UserInfo
  user_get [] = fail (ldp_error_new err_code_not_found)
  user_get (c ∷ name) = do obj ← get_value (etcd_profile_path (c ∷ name)); lift (read_user obj)

  -- `UserInfo.Update`
  unfoldable pub user_update : UserInfo → M W (Unit {0})
  user_update usr = set_value (etcd_profile_path usr.username) (json (encode_user usr))

  -- The branches of `UserInfo.IfExist`.
  abbrev pub if_exist_result : Result Value → M W Bool
  if_exist_result (ok _) = pure true
  if_exist_result (err e) = if check_if_not_found (some e) then pure false else fail e

  -- `UserInfo.IfExist`
  unfoldable pub if_exist : Str → M W Bool
  if_exist username = do r ← attempt (get_value (etcd_profile_path username)); if_exist_result r

  -- getProfile
  unfoldable pub get_profile : Str → M W Value
  get_profile [] = fail (ldp_error_new err_code_not_found)
  get_profile (c ∷ name) = get_value (etcd_profile_path (c ∷ name))

  -- `Orgnazition.Get` of a record with this id.
  unfoldable pub org_get : Str → M W Orgnazition
  org_get id = do obj ← get_value (etcd_org_path id); lift (read_org obj)

  -- `Orgnazition.Create`
  unfoldable pub org_create : Orgnazition → M W Orgnazition
  org_create o = do _ ← set_value (etcd_org_path o.id) (json (encode_org o)); pure o

  -- `Orgnazition.Update`
  unfoldable pub org_update : Orgnazition → M W Orgnazition
  org_update o = org_create o

  -- `Orgnazition.Delete`
  unfoldable pub org_delete : Str → M W (Unit {0})
  org_delete id = delete (etcd_org_path id)
