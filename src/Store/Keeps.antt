-- ===== src/Store/Keeps.antt =====
-- What the reads and writes of the store do to a property of all stored organizations: a read
-- finds an organization with it, a write of an organization with it keeps it, and nothing else
-- that the program stores is ever read as an organization.
use datafoundry_proxy.Base.{
  ◌≡◌, refl, sym, subst, ◌∙◌, ◌≢◌, inl, inr, true, false, [], ◌∷◌, Option, none, some, Str, str_eq,
  str_eq_iff, Bool-cases, ℕ,
}
use datafoundry_proxy.Types.{UserInfo, Orgnazition}
use datafoundry_proxy.Effect.{Result, ok, err, run, call}
use datafoundry_proxy.Effect.Ensures.{
  Ensures, Any, Succeeds, Succeeds-Any, Ensures-pure, Ensures-fail, Ensures-lift, Ensures-if,
  Ensures-attempt, Ensures-run, Ensures-call, Ensures-bind,
}
use datafoundry_proxy.Json.Codec.{Value, json, read_user, read_org, encode_org}
use datafoundry_proxy.Json.Codec.RoundTrip.{read_org-encode_org}
use datafoundry_proxy.Paths.{
  etcd_profile_path, etcd_org_path, etcd_verify_path, profile_path-ne-org_path,
  verify_path-ne-org_path,
}
use datafoundry_proxy.Backend.{Backend}
use datafoundry_proxy.Backend.Laws.{Laws}
use datafoundry_proxy.Store.{
  get_value, set_value, set_value_by_ttl, delete, user_get, user_update, if_exist_result, if_exist,
  get_profile, org_get, org_create, org_update, org_delete,
}

-- Every organization that can be read from the store has `P`.
abbrev pub OrgsAre : {W : Type 0} → (W → Str → Option Value) → (Orgnazition → Type 0) → W → Type 0
OrgsAre stored P w =
    (id : Str) (v : Value) (o : Orgnazition)
    → stored w (etcd_org_path id) ≡ some v
    → read_org v ≡ ok o
    → P o

-- A property of what is stored, and of nothing else of the world.
abbrev pub IsOfStore : {W : Type 0} → (W → Str → Option Value) → (W → Type 0) → Type 0
IsOfStore {W} stored S = (w w' : W) → ((k : Str) → stored w' k ≡ stored w k) → S w → S w'

pub OrgsAre-IsOfStore :
    {W : Type 0} (stored : W → Str → Option Value) (P : Orgnazition → Type 0)
    → IsOfStore stored (OrgsAre stored P)
OrgsAre-IsOfStore stored P w w' same h id v o s e = h id v o (sym (same (etcd_org_path id)) ∙ s) e

module _ {W : Type 0} (B : Backend W) (stored : W → Str → Option Value) (L : Laws B stored)
    (P : Orgnazition → Type 0) where
  -- An action that leaves the stored organizations alone keeps the property.
  pub same-OrgsAre :
      (w w' : W)
      → ((id : Str) → stored w' (etcd_org_path id) ≡ stored w (etcd_org_path id))
      → OrgsAre stored P w
      → OrgsAre stored P w'
  same-OrgsAre w w' same h id v o s e = h id v o (sym (same id) ∙ s) e

  pub Ensures-get_value : (k : Str) → Ensures (OrgsAre stored P) (get_value B k) Any
  unfolding get_value
  Ensures-get_value k =
      Ensures-run Any (B.etcd_get k)
        (λ w h. same-OrgsAre w _ (λ id. L.get_keeps k (etcd_org_path id) w) h) (λ w a h e. tt)

  pub Ensures-org_get : (id : Str) → Ensures (OrgsAre stored P) (org_get B id) P
  unfolding org_get get_value
  Ensures-org_get id =
      Ensures-bind (λ v. (o : Orgnazition) → read_org v ≡ ok o → P o) _ _
        (Ensures-run _ (B.etcd_get (etcd_org_path id))
          (λ w h. same-OrgsAre w _ (λ j. L.get_keeps (etcd_org_path id) (etcd_org_path j) w) h)
          (λ w v h e o r. h id v o (L.get_ok (etcd_org_path id) v w e) r))
        (λ v q. Ensures-lift (read_org v) (Succeeds-intro (read_org v) q))
    where
      Succeeds-intro :
          (r : Result Orgnazition) → ((o : Orgnazition) → r ≡ ok o → P o) → Succeeds P r
      Succeeds-intro (ok o) q = q o refl
      Succeeds-intro (err e) q = tt

  -- A write at a key that is no organization's.
  Ensures-set_elsewhere :
      (k : Str) (v : Value) (ttl : Option ℕ)
      → ((id : Str) → k ≢ etcd_org_path id)
      → Ensures (OrgsAre stored P) (run (B.etcd_set k v ttl)) Any
  Ensures-set_elsewhere k v ttl ne =
      Ensures-run Any (B.etcd_set k v ttl)
        (λ w h. same-OrgsAre w _ (λ id. L.set_other k (etcd_org_path id) v ttl w (ne id)) h)
        (λ w a h e. tt)

  set_org_at :
      (org : Orgnazition) (w : W) (k : Str)
      → P org
      → OrgsAre stored P w
      → (id : Str) (v : Value) (o : Orgnazition) → etcd_org_path id ≡ k
      → stored (B.etcd_set k (json (encode_org org)) none w).1 k ≡ some v
      → read_org v ≡ ok o
      → P o
  set_org_at org w k p h id v o at s e = elim (L.set_own k (json (encode_org org)) none w) [
    | inl written ↦ subst P (cc (read_org-encode_org org)) p
    | inr kept ↦ h id v o (cc) e
  ]

  Ensures-set_org :
      (org : Orgnazition)
      → P org
      → Ensures (OrgsAre stored P) (set_value B (etcd_org_path org.id) (json (encode_org org))) Any
  unfolding set_value
  Ensures-set_org org p =
      Ensures-run Any _
        (λ w h id v o s e. elim (Bool-cases (str_eq (etcd_org_path id) (etcd_org_path org.id))) [
          | inl same ↦
              let at = (str_eq_iff (etcd_org_path id) (etcd_org_path org.id)).0 same in
              set_org_at org w (etcd_org_path org.id) p h id v o at
                (subst
                  (λ k.
                    stored (B.etcd_set (etcd_org_path org.id) (json (encode_org org)) none w).1 k
                    ≡ some v)
                  at s)
                e
          | inr apart ↦
              h id v o
                (sym (
                    L.set_other (etcd_org_path org.id) (etcd_org_path id) _ none w (λ same.
                      cc (
                        apart,
                        (str_eq_iff (etcd_org_path id) (etcd_org_path org.id)).1 (sym same),
                      )))
                  ∙ s)
                e
        ])
        (λ w a h e. tt)

  pub Ensures-org_create :
      (o : Orgnazition) → P o → Ensures (OrgsAre stored P) (org_create B o) (λ r. r ≡ o)
  unfolding org_create
  Ensures-org_create o p = Ensures-bind Any _ _ (Ensures-set_org o p) (λ _ _. Ensures-pure o refl)

  pub Ensures-org_update :
      (o : Orgnazition) → P o → Ensures (OrgsAre stored P) (org_update B o) (λ r. r ≡ o)
  unfolding org_update
  Ensures-org_update o p = Ensures-org_create o p

  -- A deleted key holds nothing that could lack the property.
  delete-OrgsAre : (k : Str) (w : W) → OrgsAre stored P w → OrgsAre stored P (B.etcd_delete k w).1
  delete-OrgsAre k w h id v o s e = elim (Bool-cases (str_eq k (etcd_org_path id))) [
    | inl same ↦
        let s' : stored (B.etcd_delete k w).1 k ≡ some v =
          subst (λ j. stored (B.etcd_delete k w).1 j ≡ some v)
            (sym ((str_eq_iff k (etcd_org_path id)).0 same)) s in
        elim (L.delete_own k w) [
          | inl gone ↦ cc
          | inr kept ↦
              h id v o
                (subst (λ j. stored w j ≡ some v) ((str_eq_iff k (etcd_org_path id)).0 same)
                  (sym kept ∙ s'))
                e
        ]
    | inr apart ↦
        h id v o
          (sym (
              L.delete_other k (etcd_org_path id) w
                (λ same. cc (apart, (str_eq_iff k (etcd_org_path id)).1 same)))
            ∙ s)
          e
  ]

  pub Ensures-delete : (k : Str) → Ensures (OrgsAre stored P) (delete B k) Any
  unfolding delete
  Ensures-delete k = Ensures-run Any (B.etcd_delete k) (delete-OrgsAre k) (λ w a h e. tt)

  pub Ensures-user_get : (name : Str) → Ensures (OrgsAre stored P) (user_get B name) Any
  unfolding user_get
  Ensures-user_get [] = Ensures-fail _
  Ensures-user_get (c ∷ name) =
      Ensures-bind Any _ _ (Ensures-get_value _)
        (λ v _. Ensures-lift (read_user v) (Succeeds-Any (read_user v)))

  pub Ensures-user_update : (u : UserInfo) → Ensures (OrgsAre stored P) (user_update B u) Any
  unfolding user_update set_value
  Ensures-user_update u = Ensures-set_elsewhere _ _ none (profile_path-ne-org_path u.username)

  pub Ensures-set_verify :
      (k : Str) (v : Value) (ttl : ℕ)
      → Ensures (OrgsAre stored P) (set_value_by_ttl B (etcd_verify_path k) v ttl) Any
  unfolding set_value_by_ttl
  Ensures-set_verify k v ttl = Ensures-set_elsewhere _ v (some ttl) (verify_path-ne-org_path k)

  pub Ensures-if_exist : (name : Str) → Ensures (OrgsAre stored P) (if_exist B name) Any
  unfolding if_exist
  Ensures-if_exist name =
      Ensures-bind _ _ _ (Ensures-attempt _ (Ensures-get_value _)) (λ r _. result r)
    where
      result : (r : Result Value) → Ensures (OrgsAre stored P) (if_exist_result B r) Any
      result (ok v) = Ensures-pure true tt
      result (err e) = Ensures-if _ _ _ (λ _. Ensures-pure false tt) (λ _. Ensures-fail e)

  pub Ensures-get_profile : (name : Str) → Ensures (OrgsAre stored P) (get_profile B name) Any
  unfolding get_profile
  Ensures-get_profile [] = Ensures-fail _
  Ensures-get_profile (c ∷ name) = Ensures-get_value _

  pub Ensures-now : Ensures (OrgsAre stored P) (call B.now) Any
  Ensures-now =
      Ensures-call B.now (λ w h. same-OrgsAre w _ (λ id. L.now_keeps (etcd_org_path id) w) h)

  pub Ensures-rand_intn : (n : ℕ) → Ensures (OrgsAre stored P) (call (B.rand_intn n)) Any
  Ensures-rand_intn n =
      Ensures-call (B.rand_intn n)
        (λ w h. same-OrgsAre w _ (λ id. L.rand_intn_keeps n (etcd_org_path id) w) h)

  pub Ensures-org_delete : (id : Str) → Ensures (OrgsAre stored P) (org_delete B id) Any
  unfolding org_delete
  Ensures-org_delete id = Ensures-delete (etcd_org_path id)

  pub Ensures-ldap_dial : Ensures (OrgsAre stored P) (run B.ldap_dial) Any
  Ensures-ldap_dial =
      Ensures-run Any B.ldap_dial
        (λ w h. same-OrgsAre w _ (λ id. L.ldap_dial_keeps (etcd_org_path id) w) h) (λ w a h e. tt)

  pub Ensures-ldap_bind : (u p : Str) → Ensures (OrgsAre stored P) (run (B.ldap_bind u p)) Any
  Ensures-ldap_bind u p =
      Ensures-run Any (B.ldap_bind u p)
        (λ w h. same-OrgsAre w _ (λ id. L.ldap_bind_keeps u p (etcd_org_path id) w) h)
        (λ w a h e. tt)

  pub Ensures-ldap_add : (d n p m : Str) → Ensures (OrgsAre stored P) (run (B.ldap_add d n p m)) Any
  Ensures-ldap_add d n p m =
      Ensures-run Any (B.ldap_add d n p m)
        (λ w h. same-OrgsAre w _ (λ id. L.ldap_add_keeps d n p m (etcd_org_path id) w) h)
        (λ w a h e. tt)

  pub Ensures-ldap_password_modify :
      (old new : Str) → Ensures (OrgsAre stored P) (run (B.ldap_password_modify old new)) Any
  Ensures-ldap_password_modify old new =
      Ensures-run Any (B.ldap_password_modify old new)
        (λ w h. same-OrgsAre w _ (λ id. L.ldap_password_keeps old new (etcd_org_path id) w) h)
        (λ w a h e. tt)

  pub Ensures-send_mail : (a b c : Str) → Ensures (OrgsAre stored P) (run (B.send_mail a b c)) Any
  Ensures-send_mail a b c =
      Ensures-run Any (B.send_mail a b c)
        (λ w h. same-OrgsAre w _ (λ id. L.mail_keeps a b c (etcd_org_path id) w) h) (λ w x h e. tt)

  pub Ensures-rand_read : (n : ℕ) → Ensures (OrgsAre stored P) (run (B.rand_read n)) Any
  Ensures-rand_read n =
      Ensures-run Any (B.rand_read n)
        (λ w h. same-OrgsAre w _ (λ id. L.rand_read_keeps n (etcd_org_path id) w) h) (λ w a h e. tt)

  pub Ensures-set_profile :
      (name : Str) (v : Value)
      → Ensures (OrgsAre stored P) (set_value B (etcd_profile_path name) v) Any
  unfolding set_value
  Ensures-set_profile name v =
      Ensures-set_elsewhere (etcd_profile_path name) v none (profile_path-ne-org_path name)
