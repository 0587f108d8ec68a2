-- ===== src/Tests/World.antt =====
-- A world in which every service answers: etcd as an association list, an OpenShift server where a
-- token is the name of its user, an LDAP server that knows the accounts of a list, and a mail
-- server. The requests that it has been sent are counted.
use datafoundry_proxy.Base.{
  ℕ, ◌+◌, ◌≡◌, ◌≢◌, refl, Bool, true, false, List, [], ◌∷◌, Option, none, some, Str, codes, str_eq,
  str_eq_iff, str_eq_refl, inl, arith, if◌then◌else◌,
}
use datafoundry_proxy.Errors.{etcd, ldap, plain}
use datafoundry_proxy.Effect.{Result, ok, err}
use datafoundry_proxy.Json.Codec.{Value, text, json}
use datafoundry_proxy.Backend.{Backend}
use datafoundry_proxy.Backend.Laws.{Laws}

pub record World : Type 0 where
  pub values : List (Str × Value)
  pub accounts : List Str
  pub requests : ℕ

abbrev pub lookup : Str → List (Str × Value) → Option Value
lookup k [] = none
lookup k ((j, v) ∷ l) = if str_eq j k then some v else lookup k l

abbrev pub remove : Str → List (Str × Value) → List (Str × Value)
remove k [] = []
remove k ((j, v) ∷ l) = if str_eq j k then remove k l else (j, v) ∷ remove k l

abbrev pub has_account : Str → List Str → Bool
has_account name [] = false
has_account name (a ∷ l) = if str_eq a name then true else has_account name l

abbrev pub world_stored : World → Str → Option Value
world_stored w k = lookup k w.values

abbrev reply : Option Value → Result Value
reply none = err (etcd 100 (codes "Key not found"))
reply (some v) = ok v

abbrev added : Str → World → Bool → Result (Unit {0}) × World
added name w true = (err (ldap 68), w)
added name w false = (ok tt, record w { accounts = name ∷ w.accounts })

abbrev name_of : Value → Result Str
name_of (text s) = ok s
name_of (json j) = err (plain (codes "json"))

abbrev pub small_backend : Backend World
small_backend = record {
  etcd_get = λ k w. (reply (lookup k w.values), w);
  etcd_set = λ k v ttl w. (ok tt, record w { values = (k, v) ∷ w.values });
  etcd_delete = λ k w. (ok tt, record w { values = remove k w.values });
  http_do = λ r w. (
    ok (record { status_code = 200; body = ok (text r.authorization) }),
    record w { requests = w.requests + 1 },
  );
  url_is_valid = λ url. true;
  user_name = name_of;
  resource_version = λ v. codes "1";
  ldap_dial = λ w. (ok tt, w);
  ldap_bind = λ u p w. (ok tt, w);
  ldap_add = λ d n p m w. added n w (has_account n w.accounts);
  ldap_password_modify = λ old new w. (ok tt, w);
  ldap_message = λ code. codes "LDAP";
  send_mail = λ to name link w. (ok tt, w);
  now = λ w. (codes "2016-08-01T00:00:00Z", w);
  rand_intn = λ n w. (0, w);
  rand_read = λ n w. (ok (1 ∷ 171 ∷ []), w);
  df_host = codes "https://df";
  ldap_admin_user = codes "admin";
  ldap_admin_password = codes "secret";
  ldap_base_dn = λ name. name;
  api_addr = codes "https://api";
}

reply-stored : (r : Option Value) (v : Value) → reply r ≡ ok v → r ≡ some v
reply-stored none v e = cc
reply-stored (some u) v e = cc

lookup-remove_self : (k : Str) (l : List (Str × Value)) → lookup k (remove k l) ≡ none
lookup-remove_self k [] = refl
lookup-remove_self k ((j, v) ∷ l) = ground (arith, lookup-remove_self k l)

lookup-remove_other :
    (k j : Str) (l : List (Str × Value)) → k ≢ j → lookup j (remove k l) ≡ lookup j l
lookup-remove_other k j [] h = refl
lookup-remove_other k j ((i, v) ∷ l) h =
    ground (arith, lookup-remove_other k j l h, str_eq_iff i k, str_eq_iff i j)

lookup-set_other :
    (k j : Str) (v : Value) (l : List (Str × Value)) → k ≢ j → lookup j ((k, v) ∷ l) ≡ lookup j l
lookup-set_other k j v l h = ground (arith, str_eq_iff k j)

added-keeps : (j n : Str) (w : World) (b : Bool) → world_stored (added n w b).1 j ≡ world_stored w j
added-keeps j n w true = refl
added-keeps j n w false = refl

pub small_laws : Laws small_backend world_stored
small_laws = record {
  get_ok = λ k v w e. reply-stored (lookup k w.values) v e;
  get_keeps = λ k j w. refl;
  set_ok = λ k v ttl w e. rw (str_eq_refl k) refl;
  set_own = λ k v ttl w. inl (rw (str_eq_refl k) refl);
  set_other = λ k j v ttl w h. lookup-set_other k j v w.values h;
  delete_ok = λ k w e. lookup-remove_self k w.values;
  delete_own = λ k w. inl (lookup-remove_self k w.values);
  delete_other = λ k j w h. lookup-remove_other k j w.values h;
  http_keeps = λ r j w. refl;
  ldap_dial_keeps = λ j w. refl;
  ldap_bind_keeps = λ u p j w. refl;
  ldap_add_keeps = λ d n p m j w. added-keeps j n w (has_account n w.accounts);
  ldap_password_keeps = λ a b j w. refl;
  mail_keeps = λ a b c j w. refl;
  now_keeps = λ j w. refl;
  rand_intn_keeps = λ n j w. refl;
  rand_read_keeps = λ n j w. refl;
}
