-- ===== src/Backend/Laws.antt =====
-- What the program relies on of etcd: a successful read returns what is stored, a write or a
-- deletion changes its own key alone, and nothing else changes what is stored. A write that is
-- reported as failed may have been made or not.
use datafoundry_proxy.Base.{ℕ, ◌≡◌, ◌≢◌, ◌⊎◌, Option, none, some, Str}
use datafoundry_proxy.Effect.{ok}
use datafoundry_proxy.Json.Codec.{Value}
use datafoundry_proxy.Backend.{Backend, HttpRequest}

pub record Laws {W : Type 0} (B : Backend W) (stored : W → Str → Option Value) : Type 0 where
  pub get_ok : (k : Str) (v : Value) (w : W) → (B.etcd_get k w).0 ≡ ok v → stored w k ≡ some v
  pub get_keeps : (k j : Str) (w : W) → stored (B.etcd_get k w).1 j ≡ stored w j
  pub set_ok :
      (k : Str) (v : Value) (ttl : Option ℕ) (w : W)
      → (B.etcd_set k v ttl w).0 ≡ ok tt
      → stored (B.etcd_set k v ttl w).1 k ≡ some v
  pub set_own :
      (k : Str) (v : Value) (ttl : Option ℕ) (w : W)
      → (stored (B.etcd_set k v ttl w).1 k ≡ some v)
        ⊎ (stored (B.etcd_set k v ttl w).1 k ≡ stored w k)
  pub set_other :
      (k j : Str) (v : Value) (ttl : Option ℕ) (w : W)
      → k ≢ j
      → stored (B.etcd_set k v ttl w).1 j ≡ stored w j
  pub delete_ok :
      (k : Str) (w : W) → (B.etcd_delete k w).0 ≡ ok tt → stored (B.etcd_delete k w).1 k ≡ none
  pub delete_own :
      (k : Str) (w : W)
      → (stored (B.etcd_delete k w).1 k ≡ none) ⊎ (stored (B.etcd_delete k w).1 k ≡ stored w k)
  pub delete_other : (k j : Str) (w : W) → k ≢ j → stored (B.etcd_delete k w).1 j ≡ stored w j
  pub http_keeps : (r : HttpRequest) (j : Str) (w : W) → stored (B.http_do r w).1 j ≡ stored w j
  pub ldap_dial_keeps : (j : Str) (w : W) → stored (B.ldap_dial w).1 j ≡ stored w j
  pub ldap_bind_keeps : (u p j : Str) (w : W) → stored (B.ldap_bind u p w).1 j ≡ stored w j
  pub ldap_add_keeps : (d n p m j : Str) (w : W) → stored (B.ldap_add d n p m w).1 j ≡ stored w j
  pub ldap_password_keeps :
      (a b j : Str) (w : W) → stored (B.ldap_password_modify a b w).1 j ≡ stored w j
  pub mail_keeps : (a b c j : Str) (w : W) → stored (B.send_mail a b c w).1 j ≡ stored w j
  pub now_keeps : (j : Str) (w : W) → stored (B.now w).1 j ≡ stored w j
  pub rand_intn_keeps : (n : ℕ) (j : Str) (w : W) → stored (B.rand_intn n w).1 j ≡ stored w j
  pub rand_read_keeps : (n : ℕ) (j : Str) (w : W) → stored (B.rand_read n w).1 j ≡ stored w j
